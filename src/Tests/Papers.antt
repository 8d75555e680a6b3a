-- ===== src/Tests/Papers.antt =====
-- A draft goods issue (WZ) over one layer, and requests from the empty warehouse on.
use ifg.Base.{
  ℕ, pos, ◌+ℤ◌, some, none, List, [], ◌∷◌, ◌≡◌, refl, ◌==◌, int_laws, arith, Bool-cases, inl, inr,
  false,
}
use ifg.Base.Dict.{Dict, lookup}
use ifg.Base.Exec.{ok, err, each, ◌>>=◌, invalid_warehouse_document}
use ifg.Numeral.{show, show_padded, digits_fuel}
use ifg.Warehouse.Rows.{
  Layer, Warehouse, Document, DocItem, Clock, CatalogItem, DocumentBody, pz, wz, draft, posted,
}
use ifg.Warehouse.Repository.{
  get_available_fifo, upsert_balance, allocate_next_sequence, balance_of,
}
use ifg.Warehouse.Invariant.{consumed}
use ifg.Warehouse.Fifo.{take_from, consume_loop, consume_fifo}
use ifg.Warehouse.Fifo.Stock.{stock_of, share}
use ifg.Warehouse.Posting.{
  post_document, post_by_status, post_draft, post_by_type, post_wz, post_wz_item,
  allocate_document_number, document_number,
}
use ifg.Warehouse.Posting.Effect.{net}
use ifg.Warehouse.Documents.{update_document, cancel_document}
use ifg.Warehouse.Documents.Lifecycle.{final_document, post_document_twice}
use ifg.Warehouse.Documents.Invariant.{IsWellFormed}
use ifg.Warehouse.Documents.Stock.{post_document_stock}
use ifg.Warehouse.Documents.Numbers.Unique.{IsNumbered}
use ifg.Warehouse.Documents.Numbers.Sequence.{document_number-injective}
use ifg.Warehouse.History.{
  Request, create, update, post, cancel, serve, empty_warehouse, serve-IsWellFormed,
  serve-IsNumbered,
}

abbrev some_day : Clock
some_day = record { today = 100; year = 2026; now = 7 }

abbrev issue_item : DocItem
issue_item = record {
  id = 2;
  item_id = 1;
  quantity = pos 30000;
  purchase_unit_price = none;
  unit_price_net = none;
  vat_rate = none;
  suggested_sale_price = none;
}

abbrev issue : Document
issue = record {
  number = none;
  doc_type = wz;
  status = draft;
  notes = none;
  correction_reason = none;
  issue_reason = some "gratis";
  source_invoice_id = none;
  fiscal_report_id = none;
  created_by = none;
  posted_at = none;
  doc_items = issue_item ∷ [];
}

abbrev issue_posted : Document
issue_posted = record issue {
  number = some (document_number wz 2026 1);
  status = posted;
  posted_at = some 7;
}

abbrev layer : Layer
layer = record {
  item_id = 1;
  source_document_item_id = 0;
  source_document_type = pz;
  received_quantity = pos 80000;
  remaining_quantity = pos 80000;
  purchase_unit_price = pos 125000;
  received_date = 90;
  is_correction = false;
  created_at = 5;
}

abbrev with_document : Document → Warehouse
with_document doc = record {
  next_id = 20;
  documents = (3, doc) ∷ [];
  layers = (11, layer) ∷ [];
  movements = [];
  balances = (1, pos 80000) ∷ [];
  sequences = [];
  catalog = [];
}

abbrev body : DocumentBody
body = record {
  doc_type = "PZ";
  items =
      record {
        item_id = 1;
        quantity = record { coef = pos 8; places = 0 };
        purchase_unit_price = some record { coef = pos 1250; places = 2 };
        unit_price_net = none;
        vat_rate = none;
        suggested_sale_price = none;
      }
      ∷ [];
  notes = none;
  correction_reason = none;
  issue_reason = none;
  source_invoice_id = none;
  fiscal_report_id = none;
}

abbrev requests : List Request
requests =
    create body none
    ∷ post some_day 0
    ∷ create body none
    ∷ post some_day 3
    ∷ cancel 0
    ∷ update 3 body
    ∷ []

abbrev catalog : Dict CatalogItem
catalog =
    (1, record { default_price_net = pos 0; vat_rate = pos 230000; suggested_sale_price = none })
    ∷ []

serve-IsWellFormed_example : IsWellFormed (serve requests (empty_warehouse catalog))
serve-IsWellFormed_example = serve-IsWellFormed catalog requests

serve-IsNumbered_example : IsNumbered (serve requests (empty_warehouse catalog))
serve-IsNumbered_example = serve-IsNumbered catalog requests

final_document_example :
    (post_document some_day 3 (with_document issue_posted)
      ≡ (ok issue_posted, with_document issue_posted))
    × (update_document 3 body (with_document issue_posted)
        ≡ (err invalid_warehouse_document, with_document issue_posted))
    × (cancel_document 3 (with_document issue_posted)
        ≡ (err invalid_warehouse_document, with_document issue_posted))
final_document_example =
    final_document some_day 3 body issue_posted (with_document issue_posted) refl (λ e. cc)

issue_posts : (post_document some_day 3 (with_document issue)).0 ≡ ok issue_posted
unfolding post_document post_by_status post_draft post_by_type post_wz post_wz_item each ◌>>=◌
    consume_fifo get_available_fifo consume_loop take_from upsert_balance allocate_document_number
    allocate_next_sequence document_number show_padded show digits_fuel ◌+ℤ◌
issue_posts = refl

post_document_twice_example :
    post_document some_day 3 (post_document some_day 3 (with_document issue)).1
    ≡ (ok issue_posted, (post_document some_day 3 (with_document issue)).1)
post_document_twice_example =
    post_document_twice some_day some_day 3 issue_posted (with_document issue) issue_posts

layer_conserved :
    (k : ℕ) (l : Layer)
    → lookup k (with_document issue).layers ≡ some l
    → l.remaining_quantity +ℤ consumed k [] ≡ l.received_quantity
layer_conserved k l e = elim (Bool-cases (k == 11)) [
  | inl here ↦ let same : layer ≡ l = cc in rw (← same) (omega int_laws)
  | inr there ↦ cc
]

layer_balanced :
    (i : ℕ) → balance_of i (with_document issue).balances ≡ stock_of i (with_document issue).layers
unfolding share
layer_balanced i = elim (Bool-cases (i == 1)) [
  | inl here ↦ rw (balance_of, lookup, here) (grind int_laws)
  | inr there ↦ rw (balance_of, lookup, there) (grind int_laws)
]

issue-IsWellFormed : IsWellFormed (with_document issue)
issue-IsWellFormed = record {
  consistent = record {
    sound = record {
      distinct = omega arith;
      below = omega arith;
      moves_below = tt;
      nonneg = omega arith;
      conserved = layer_conserved;
    };
    balanced = layer_balanced;
  };
  documents = (tt, tt);
}

-- The issue of 3 takes 3 of item 1.
post_document_stock_example :
    stock_of 1 (post_document some_day 3 (with_document issue)).1.layers
    ≡ stock_of 1 (with_document issue).layers +ℤ net wz (issue_item ∷ []) 1
post_document_stock_example =
    post_document_stock some_day 3 issue issue_posted (with_document issue) issue-IsWellFormed refl
      refl issue_posts 1

abbrev this_year : ℕ
this_year = 2026

document_number-injective_example : (wz ≡ wz) × (this_year ≡ this_year) × (this_year ≡ this_year)
document_number-injective_example =
    document_number-injective wz wz this_year this_year this_year this_year refl
