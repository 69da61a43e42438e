-- ===== src/Dict.antt =====
-- Python dictionaries with text keys, as association lists in insertion order.
use Prim.Native.String.{String}
use text.Mathlib.Text.{◌==◌}
use text.Mathlib.TextEquality.{eq_iff}
use relinker.Prelude.{
  ◌≡◌, refl, Bool, Option, none, some, List, [], ◌∷◌, if◌then◌else◌, arith, ◌||◌, false,
}

-- The items of a dictionary.
abbrev pub Dict {ℓ} : Type ℓ → Type ℓ
Dict V = List (String × V)

module _ {ℓ} {V : Type ℓ} where
  -- `d.get(key)`
  unfoldable pub lookup : String → Dict V → Option V
  lookup key [] = none
  lookup key ((other, value) ∷ rest) = if key == other then some value else lookup key rest

  pub lookup-nil : (key : String) → lookup key [] ≡ none
  unfolding lookup
  lookup-nil key = refl

  -- `d[key] = value`: in the place of the key, or at the end.
  unfoldable pub insert : String → V → Dict V → Dict V
  insert key value [] = (key, value) ∷ []
  insert key value ((other, old) ∷ rest) =
      if key == other then (other, value) ∷ rest else (other, old) ∷ insert key value rest

  -- `d.pop(key, None)`
  pub erase : String → Dict V → Dict V
  erase key [] = []
  erase key ((other, value) ∷ rest) =
      if key == other then erase key rest else (other, value) ∷ erase key rest

  -- Only the key that was set or removed is asked for with another answer than before.
  pub lookup-insert :
      (key asked : String) (value : V) (d : Dict V)
      → lookup asked (insert key value d) ≡ (if key == asked then some value else lookup asked d)
  unfolding lookup insert
  lookup-insert key asked value [] = ground (arith, eq_iff key asked, eq_iff asked key)
  lookup-insert key asked value ((other, old) ∷ rest) = ground (
    arith,
    lookup-insert key asked value rest,
    eq_iff asked key,
    eq_iff key asked,
    eq_iff asked other,
    eq_iff key other,
  )

  pub lookup-erase :
      (key asked : String) (d : Dict V)
      → lookup asked (erase key d) ≡ (if key == asked then none else lookup asked d)
  unfolding lookup erase
  lookup-erase key asked [] = ground arith
  lookup-erase key asked ((other, value) ∷ rest) =
      ground
        (arith, lookup-erase key asked rest, eq_iff key asked, eq_iff asked other, eq_iff key other)

pub contains : String → List String → Bool
contains k [] = false
contains k (j ∷ js) = (j == k) || contains k js

-- Each key stands in the dictionary once.
abbrev pub HasDistinctKeys : {V : Type 0} → Dict V → Type 0
HasDistinctKeys [] = Unit
HasDistinctKeys ((k, v) ∷ m) = (lookup k m ≡ none) × HasDistinctKeys m

module _ {V : Type 0} where
  -- `for key in keys: del d[key]`
  pub erase_keys : List String → Dict V → Dict V
  erase_keys [] m = m
  erase_keys (key ∷ keys) m = erase_keys keys (erase key m)

  pub insert-HasDistinctKeys :
      (k : String) (v : V) (m : Dict V) → HasDistinctKeys m → HasDistinctKeys (insert k v m)
  unfolding lookup insert
  insert-HasDistinctKeys k v [] h = (refl, tt)
  insert-HasDistinctKeys k v ((j, w) ∷ m) h =
      ground
        (arith, eq_iff k j, eq_iff j k, insert-HasDistinctKeys k v m h.1, lookup-insert k j v m)

  pub erase-HasDistinctKeys :
      (k : String) (m : Dict V) → HasDistinctKeys m → HasDistinctKeys (erase k m)
  unfolding erase
  erase-HasDistinctKeys k [] h = tt
  erase-HasDistinctKeys k ((j, w) ∷ m) h =
      ground (arith, eq_iff j k, erase-HasDistinctKeys k m h.1, lookup-erase k j m)

  pub lookup-erase_keys :
      (ks : List String) (j : String) (m : Dict V)
      → lookup j (erase_keys ks m) ≡ (if contains j ks then none else lookup j m)
  unfolding erase_keys contains
  lookup-erase_keys [] j m = refl
  lookup-erase_keys (k ∷ ks) j m =
      ground (arith, lookup-erase_keys ks j (erase k m), lookup-erase k j m)

  pub erase_keys-HasDistinctKeys :
      (ks : List String) (m : Dict V) → HasDistinctKeys m → HasDistinctKeys (erase_keys ks m)
  unfolding erase_keys
  erase_keys-HasDistinctKeys [] m h = h
  erase_keys-HasDistinctKeys (k ∷ ks) m h =
      erase_keys-HasDistinctKeys ks (erase k m) (erase-HasDistinctKeys k m h)

  -- The keys whose value passes a test; of a key that stands once, the test of its value.
  pub keys_where : (V → Bool) → Dict V → List String
  keys_where p [] = []
  keys_where p ((k, v) ∷ m) = if p v then k ∷ keys_where p m else keys_where p m

  pub contains-keys_where :
      (p : V → Bool) (j : String) (m : Dict V)
      → HasDistinctKeys m
      → contains j (keys_where p m) ≡ (elim (lookup j m) [ none ↦ false | some v ↦ p v ])
  unfolding lookup contains keys_where
  contains-keys_where p j [] h = refl
  contains-keys_where p j ((k, v) ∷ m) h =
      ground (arith, eq_iff k j, eq_iff j k, contains-keys_where p j m h.1)
