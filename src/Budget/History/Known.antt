-- ===== src/Budget/History/Known.antt =====
-- What a RetryBudget of src/relinker/budget.py knows of its history after each method.
use Prim.Native.String.{String}
use text.Mathlib.Text.{◌==◌ as str_eq}
use text.Mathlib.TextEquality.{eq_iff}
use mathlib.Core.Path.{subst}
use relinker.Prelude.{
  ◌≡◌, refl, sym, ap, ◌∙◌, inl, inr, true, Option, none, some, List, [], ◌∷◌, ◌++◌, if◌then◌else◌,
  Bool-cases, arith,
}
use relinker.Python.{Python, FloatLaws, Float, ◌≤F◌, float_max, return}
use relinker.Dict.{lookup, HasDistinctKeys}
use relinker.Budget.Table.{
  maybe_cleanup_fields, reservations_of-cleanup_expired_keys, prune-expired,
}
use relinker.Budget.{
  maybe_cleanup, release_from, snapshot_found, snapshot_view, reserve_slot, cleanup_expired_keys,
  RetryReservation, RetryBudget, RetryBudgetSnapshot, reserve, release, cleanup, snapshot, prune,
  reservations_of,
}
use relinker.Budget.Windows.{IsValid, Call, reserved, released, cleaned, viewed}
use relinker.Budget.Release.{
  live, store_lem, prune-prune, kept_lem, reservations_of-reserve_slot, reserve_slot_others,
  reserve_slot-not_before,
}
use relinker.Budget.Released.{without, prune-without}
use relinker.Budget.History.{History, with_made, with_released}

module _ ⦃py : Python⦄ where
  module _ (laws : FloatLaws py) where
    le_refl : (x : Float) → x ≤F x ≡ true
    le_refl x = elim (laws.le_total x x) [ inl h ↦ h | inr h ↦ h ]

    -- No method changes the limit.
    release_from-limit :
        (b : RetryBudget) (r : RetryReservation) (rs : List RetryReservation)
        → ((release_from b r rs).max_retries ≡ b.max_retries) × ((release_from b r rs).per ≡ b.per)
    unfolding release_from
    release_from-limit b r [] = (refl, refl)
    release_from-limit b r (x ∷ xs) = (refl, refl)

    snapshot_found-limit :
        (b : RetryBudget) (key : String) (now : Float) (found : Option (List RetryReservation))
        → ((snapshot_found b key now found).1.max_retries ≡ b.max_retries)
          × ((snapshot_found b key now found).1.per ≡ b.per)
    unfolding snapshot_found
    snapshot_found-limit b key now none = (refl, refl)
    snapshot_found-limit b key now (some rs) = (refl, refl)

    pub reserve_same :
        (b : RetryBudget) (key : String) (now not_before : Float) {r : RetryReservation}
        {after : RetryBudget}
        → reserve b key now not_before ≡ return (r, after)
        → (r, after) ≡ reserve_slot b key now not_before
    unfolding reserve
    reserve_same b key now not_before e = ground arith

    pub snapshot_same :
        (b : RetryBudget) (key : String) (now : Float) {view : RetryBudgetSnapshot}
        {after : RetryBudget}
        → snapshot b key now ≡ return (view, after)
        → after ≡ (snapshot_view b key now).1
    unfolding snapshot
    snapshot_same b key now e = ground arith

    pub Call-limit :
        {b c : RetryBudget} → Call b c → (c.max_retries ≡ b.max_retries) × (c.per ≡ b.per)
    unfolding reserve_slot release cleanup cleanup_expired_keys snapshot_view
    Call-limit (reserved b key now not_before e) =
        let fields = maybe_cleanup_fields b now in
        let same = ap (λ p. p.1) (reserve_same b key now not_before e) in
        (ap (λ c. c.max_retries) same ∙ fields.0, ap (λ c. c.per) same ∙ fields.1)
    Call-limit (released b r now) =
        let fields = maybe_cleanup_fields b now in
        let c = maybe_cleanup b now in
        let kept = release_from-limit c r (reservations_of c r.key) in
        (kept.0 ∙ fields.0, kept.1 ∙ fields.1)
    Call-limit (cleaned b now) = (refl, refl)
    Call-limit (viewed b key now e) =
        let fields = maybe_cleanup_fields b now in
        let c = maybe_cleanup b now in
        let kept = snapshot_found-limit c key now (lookup key c.reservations) in
        let same = snapshot_same b key now e in
        (ap (λ c. c.max_retries) same ∙ kept.0 ∙ fields.0, ap (λ c. c.per) same ∙ kept.1 ∙ fields.1)

    pub live-cleanup :
        (b : RetryBudget) (now : Float) (k : String)
        → HasDistinctKeys b.reservations
        → live (cleanup b now) now k ≡ live b now k
    unfolding cleanup cleanup_expired_keys prune
    live-cleanup b now k distinct = elim (reservations_of-cleanup_expired_keys b now k distinct) [
      | inl same ↦ ap (λ rs. prune b.per rs now) same
      | inr (gone, expired) ↦
          ap (λ rs. prune b.per rs now) gone
          ∙ sym (prune-expired laws b.per now (reservations_of b k) expired)
    ]

    live-snapshot_found :
        (b : RetryBudget) (key : String) (now : Float) (k : String)
        (found : Option (List RetryReservation))
        → py.is_finite b.per ≡ true
        → lookup key b.reservations ≡ found
        → live (snapshot_found b key now found).1 now k ≡ live b now k
    unfolding snapshot_found reservations_of
    live-snapshot_found b key now k none f e = refl
    live-snapshot_found b key now k (some rs) f e =
        ap (λ rs. prune b.per rs now) (store_lem b key k (prune b.per rs now) b.next_token)
        ∙ ground (arith, eq_iff key k, e, prune-prune laws b.per now now rs f (le_refl now))

    pub live-snapshot_view :
        (b : RetryBudget) (key : String) (now : Float) (k : String)
        → IsValid b
        → live (snapshot_view b key now).1 now k ≡ live b now k
    unfolding snapshot_view
    live-snapshot_view b key now k v =
        let c = maybe_cleanup b now in
        live-snapshot_found c key now k (lookup key c.reservations)
          (rw ((maybe_cleanup_fields b now).1) v.finite) refl
        ∙ kept_lem laws b k now v.distinct

    prune-append :
        (per now : Float) (xs ys : List RetryReservation)
        → prune per (xs ++ ys) now ≡ prune per xs now ++ prune per ys now
    unfolding prune
    prune-append per now [] ys = refl
    prune-append per now (x ∷ xs) ys = ground (arith, prune-append per now xs ys)

    reserve_slot-per :
        (b : RetryBudget) (key : String) (now not_before : Float)
        → (reserve_slot b key now not_before).1.per ≡ b.per
    unfolding reserve_slot
    reserve_slot-per b key now not_before = (maybe_cleanup_fields b now).1

    live-reserve_here :
        (b : RetryBudget) (key : String) (now not_before : Float) (h : History)
        → IsValid b
        → live b now key ≡ prune b.per (h key) now
        → let (r, after) = reserve_slot b key now not_before in
          live after now key ≡ prune b.per (h key ++ (r ∷ [])) now
    live-reserve_here b key now not_before h v e =
        let r = (reserve_slot b key now not_before).0 in
        let after = (reserve_slot b key now not_before).1 in
        ap (λ per. prune per (reservations_of after key) now)
          (reserve_slot-per b key now not_before)
        ∙ ap (λ rs. prune b.per rs now)
            (reservations_of-reserve_slot laws b key now not_before v.distinct).1
        ∙ prune-append b.per now (live b now key) (r ∷ [])
        ∙ ap (λ xs. xs ++ prune b.per (r ∷ []) now)
            (prune-prune laws b.per now now (reservations_of b key) v.finite (le_refl now) ∙ e)
        ∙ sym (prune-append b.per now (h key) (r ∷ []))

    pub live-reserve_slot :
        (b : RetryBudget) (key : String) (now not_before : Float) (k : String) (h : History)
        → IsValid b
        → live b now k ≡ prune b.per (h k) now
        → let (r, after) = reserve_slot b key now not_before in
          live after now k ≡ prune b.per (with_made key r h k) now
    live-reserve_slot b key now not_before k h v e =
        let r = (reserve_slot b key now not_before).0 in
        let after = (reserve_slot b key now not_before).1 in
        elim (Bool-cases (str_eq key k)) [
          | inl same ↦
              let here : key ≡ k = (eq_iff key k).0 same in
              let known : live b now key ≡ prune b.per (h key) now =
                subst (λ k. live b now k ≡ prune b.per (h k) now) (sym here) e in
              rw same (
                subst (λ k. live after now k ≡ prune b.per (h k ++ (r ∷ [])) now) here
                  (live-reserve_here b key now not_before h v known))
          | inr other ↦ rw other (
              reserve_slot_others laws b key k now not_before v.distinct
                (λ here. ground (arith, eq_iff key k))
              ∙ e)
        ]

    pub live-released :
        (b : RetryBudget) (r : RetryReservation) (now : Float) (h : History) (k : String)
        → live b now k ≡ prune b.per (h k) now
        → (if str_eq r.key k then without r.token (live b now k) else live b now k)
          ≡ prune b.per (with_released r h k) now
    live-released b r now h k e = elim (Bool-cases (str_eq r.key k)) [
      | inl same ↦ rw same (ap (without r.token) e ∙ sym (prune-without b.per now r.token (h k)))
      | inr other ↦ rw other e
    ]

    pub later_slot :
        (b : RetryBudget) (key : String) (now not_before : Float)
        → now ≤F (reserve_slot b key now not_before).0.scheduled_at ≡ true
    later_slot b key now not_before =
        laws.le_trans now (float_max now not_before) _
          (ground (arith, laws.lt_not_le now not_before, laws.le_total now not_before, le_refl now))
          (reserve_slot-not_before laws b key now not_before)

    -- What was known goes on to be known.
    pub carried :
        (b : RetryBudget) (clock now : Float) (h : History) (k : String)
        → py.is_finite b.per ≡ true
        → clock ≤F now ≡ true
        → live b clock k ≡ prune b.per (h k) clock
        → live b now k ≡ prune b.per (h k) now
    carried b clock now h k f o e =
        sym (prune-prune laws b.per clock now (reservations_of b k) f o)
        ∙ ap (λ rs. prune b.per rs now) e
        ∙ prune-prune laws b.per clock now (h k) f o
