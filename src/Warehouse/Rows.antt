-- ===== src/Warehouse/Rows.antt =====
-- The rows of the warehouse tables (app/persistence/models/warehouse_document.py,
-- inventory_layer.py) and the request body of a document. Quantities and prices are in
-- ten-thousandths, the four places that `_to_dec` keeps; dates and times are numbers.
use ifg.Base.{ℕ, ℤ, Bool, Option, List, String}
use ifg.Base.Dict.{Dict}
use ifg.Decimal.{Decimal}

-- app/domain/enums.py WarehouseDocumentType, WarehouseDocumentStatus
pub data DocType : Type 0 where
  pz wz kk transfer : DocType

pub data DocStatus : Type 0 where
  draft posted cancelled : DocStatus

pub record DocItem : Type 0 where
  pub id : ℕ
  pub item_id : ℕ
  pub quantity : ℤ
  pub purchase_unit_price : Option ℤ
  pub unit_price_net : Option ℤ
  pub vat_rate : Option ℤ
  pub suggested_sale_price : Option ℤ

pub record Document : Type 0 where
  pub number : Option (List ℕ)
  pub doc_type : DocType
  pub status : DocStatus
  pub notes : Option String
  pub correction_reason : Option String
  pub issue_reason : Option String
  pub source_invoice_id : Option ℕ
  pub fiscal_report_id : Option ℕ
  pub created_by : Option ℕ
  pub posted_at : Option ℕ
  pub doc_items : List DocItem

pub record Layer : Type 0 where
  pub item_id : ℕ
  pub source_document_item_id : ℕ
  pub source_document_type : DocType
  pub received_quantity : ℤ
  pub remaining_quantity : ℤ
  pub purchase_unit_price : ℤ
  pub received_date : ℕ
  pub is_correction : Bool
  pub created_at : ℕ

pub record Movement : Type 0 where
  pub id : ℕ
  pub layer_id : ℕ
  pub warehouse_document_item_id : ℕ
  pub quantity_consumed : ℤ
  pub purchase_unit_price_snapshot : ℤ

-- app/persistence/models/warehouse_item.py, the columns that posting writes
pub record CatalogItem : Type 0 where
  pub default_price_net : ℤ
  pub vat_rate : ℤ
  pub suggested_sale_price : Option ℤ

-- WarehouseDocumentNumberSeqORM
pub record NumberSeq : Type 0 where
  pub doc_type : DocType
  pub year : ℕ
  pub last_number : ℕ

-- The tables. `next_id` is above every key that `uuid4()` has given out.
pub record Warehouse : Type 0 where
  pub next_id : ℕ
  pub documents : Dict Document
  pub layers : Dict Layer
  pub movements : List Movement
  pub balances : Dict ℤ
  pub sequences : List NumberSeq
  pub catalog : Dict CatalogItem

-- `date.today()`, its year, and `datetime.now(UTC)`
pub record Clock : Type 0 where
  pub today : ℕ
  pub year : ℕ
  pub now : ℕ

pub record RawItem : Type 0 where
  pub item_id : ℕ
  pub quantity : Decimal
  pub purchase_unit_price : Option Decimal
  pub unit_price_net : Option Decimal
  pub vat_rate : Option Decimal
  pub suggested_sale_price : Option Decimal

pub record DocumentBody : Type 0 where
  pub doc_type : String
  pub items : List RawItem
  pub notes : Option String
  pub correction_reason : Option String
  pub issue_reason : Option String
  pub source_invoice_id : Option ℕ
  pub fiscal_report_id : Option ℕ
