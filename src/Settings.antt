-- ===== src/Settings.antt =====
-- The seller's data: app/services/settings_service.py. The configuration of the application comes
-- first, the row of the database second.
use ifg.Base.{◌&&◌, ◌||◌, Option, none, some, [], ◌∷◌, if◌then◌else◌, ◌≡◌, arith}
use ifg.Base.Exec.{Result, ok, err, validation}
use ifg.Invoices.Items.{Chars, strip, is_blank}
use ifg.Invoices.Validation.{Snapshot, is_missing, validate_party_snapshot, has_minimum_address}

-- The `seller_…` fields of the configuration and of AppSettingsORM.
pub record SellerFields : Type 0 where
  pub nip : Option Chars
  pub name : Option Chars
  pub street : Option Chars
  pub building_no : Option Chars
  pub apartment_no : Option Chars
  pub postal_code : Option Chars
  pub city : Option Chars
  pub country : Option Chars

abbrev stripped : Option Chars → Option Chars
stripped none = none
stripped (some text) = some (strip text)

-- `fixed_or_db`
abbrev fixed_or_db : Option Chars → Option Chars → Option Chars
fixed_or_db none db_val = stripped db_val
fixed_or_db (some text) db_val =
    if is_blank (strip text) then stripped db_val else some (strip text)

-- `value or "PL"`
abbrev or_poland : Option Chars → Chars
or_poland none = b'P' ∷ b'L' ∷ []
or_poland (some []) = b'P' ∷ b'L' ∷ []
or_poland (some (c ∷ cs)) = c ∷ cs

-- `row.seller_… if row else None`
abbrev column : (SellerFields → Option Chars) → Option SellerFields → Option Chars
column field none = none
column field (some row) = field row

abbrev from_both : (SellerFields → Option Chars) → SellerFields → Option SellerFields → Option Chars
from_both field env row = fixed_or_db (field env) (column field row)

-- `_merge`
unfoldable merge : SellerFields → Option SellerFields → SellerFields
merge env row = record {
  nip = from_both (λ r. r.nip) env row;
  name = from_both (λ r. r.name) env row;
  street = from_both (λ r. r.street) env row;
  building_no = from_both (λ r. r.building_no) env row;
  apartment_no = from_both (λ r. r.apartment_no) env row;
  postal_code = from_both (λ r. r.postal_code) env row;
  city = from_both (λ r. r.city) env row;
  country = fixed_or_db (some (or_poland env.country)) (column (λ r. r.country) row);
}

-- `str(value or "").strip()`
abbrev text_of : Option Chars → Option Chars
text_of none = some []
text_of (some text) = some (strip text)

-- `str(country or "PL").strip() or "PL"`
abbrev country_of : Option Chars → Option Chars
country_of country = some (or_poland (some (strip (or_poland country))))

-- `build_company_snapshot`
unfoldable pub build_company_snapshot : SellerFields → Option SellerFields → Snapshot
unfolding merge
build_company_snapshot env row =
    let merged = merge env row in
    record {
      name = text_of merged.name;
      nip = text_of merged.nip;
      address = none;
      street = text_of merged.street;
      building_no = text_of merged.building_no;
      apartment_no = text_of merged.apartment_no;
      postal_code = text_of merged.postal_code;
      city = text_of merged.city;
      country = country_of merged.country;
    }

-- `validate_company_snapshot`
unfoldable pub validate_company_snapshot : Snapshot → Result (Unit {0})
validate_company_snapshot snap =
    if is_missing snap.name || is_missing snap.nip
    then err validation
    else if is_missing snap.country
    then err validation
    else if is_missing snap.street && is_missing snap.building_no
        || is_missing snap.city && is_missing snap.postal_code
    then err validation
    else ok tt

-- Company data that the settings accept for a sale pass the seller's part of the formal requirements
-- of a sale, whatever stands beside them in the snapshot.
pub validate_company_snapshot-validate_party_snapshot :
    (snap : Snapshot)
    → validate_company_snapshot snap ≡ ok tt
    → validate_party_snapshot snap ≡ ok tt
unfolding validate_company_snapshot validate_party_snapshot has_minimum_address
validate_company_snapshot-validate_party_snapshot snap h = ground arith
