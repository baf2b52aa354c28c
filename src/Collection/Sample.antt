-- ===== src/Collection/Sample.antt =====
-- A small collection, and a database's choice of ids, for the examples.
use mtg_vault.Base.{
  ℕ, suc, ◌<◌, ◌≡◌, refl, true, false, Option, none, some, List, [], ◌∷◌, arith, sum_of,
}
use mtg_vault.Base.Text.{Text, codes, text_eq, lower}
use mtg_vault.Audit.Rows.{
  Value, value_eq, Row, Entity, null, number, flag, text, same_value, same_key, pk_of, find_row,
}
use mtg_vault.Collection.Names.{Unicode}
use mtg_vault.Collection.Printings.{Printing, AddSpec}
use mtg_vault.Collection.Items.{Collection, id_of}
use mtg_vault.Collection.Adding.{IsFresh}

-- A database that gives a new row an id past the sum of all ids.
units : Value → ℕ
units (number n) = n
units null = 0
units (text t) = 0
units (flag b) = 0

unfoldable pub next_id : List Row → ℕ
unfolding units
next_id rows = suc (sum_of (λ row. units (id_of row)) rows)

apart : (v : Value) (k : ℕ) → units v < k → same_value v (number k) ≡ false
unfolding same_value units
apart (number n) k h = ground (arith, h)
apart null k h = refl
apart (text t) k h = refl
apart (flag true) k h = refl
apart (flag false) k h = refl

smaller-fresh :
    (k : ℕ) (rows : List Row)
    → sum_of (λ row. units (id_of row)) rows < k
    → find_row Entity.collection_item (number k ∷ []) rows ≡ none
unfolding find_row same_key pk_of
smaller-fresh k [] h = refl
smaller-fresh k (row ∷ rows) h =
    rw (apart (id_of row) k (omega (arith, h))) (smaller-fresh k rows (omega (arith, h)))

pub next_id-IsFresh : IsFresh next_id
unfolding next_id
next_id-IsFresh rows = smaller-fresh (next_id rows) rows (omega arith)

-- Two printings of one card, and a copy of the first.
abbrev pub printing : ℕ → Text → Option ℕ → Printing
printing id set_code price = record {
  id = id;
  oracle_id = codes "o1";
  set_code = set_code;
  set_name = none;
  collector_number = codes "1";
  lang = codes "en";
  name = codes "Bolt";
  rarity = none;
  released_at = none;
  digital = false;
  price_usd_cents = price;
  price_usd_foil_cents = none;
  price_usd_etched_cents = none;
}

abbrev pub unicode : Unicode
unicode = record { casefold = lower; nfkd = λ s. s; combining = λ c. false }

abbrev pub bolt : AddSpec
bolt = record {
  oracle_id = none;
  set_code = none;
  collector_number = none;
  name = some (codes "Bolt");
  lang = codes "en";
  finish = codes "foil";
  condition = codes "NM";
  is_proxy = false;
  acquired_at = none;
  acquired_price_cents = none;
  notes = none;
}

abbrev pub vault : Collection
vault = record {
  cards = printing 10 (codes "neo") (some 500) ∷ printing 11 (codes "lea") (some 200) ∷ [];
  oracles =
      record { oracle_id = codes "o1"; name_norm = codes "bolt"; name_front_norm = codes "bolt" }
      ∷ [];
  tables = λ model. [];
  log = [];
}
