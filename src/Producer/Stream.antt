-- ===== src/Producer/Stream.antt =====
-- What a profile that loads satisfies, and what the re-sends add to a stream.
use mathlib.Core.Path.{subst}
use mathlib.Core.List.{Permᴰ}
use ctv_attribution_pipeline.Base.{
  ℕ, Bool, false, ltb, ◌&&◌, ◌≡◌, ◌≤◌, ◌<◌, refl, ap, ◌∙◌, true, List, [], ◌∷◌, ◌++◌, map,
  if◌then◌else◌, arith, Bool-cases, inl, inr,
}
use ctv_attribution_pipeline.Sort.Stable.{sort_by, sort_by-perm}
use ctv_attribution_pipeline.Dict.{Dict}
use ctv_attribution_pipeline.Model.{Ident, Instant}
use ctv_attribution_pipeline.Producer.{
  one, Profile, Slot, slot_le, first_slot, resend_slots, with_duplicates,
}

-- Every range is in order, every fraction is at most one, and what must be positive is.
pub record IsSound (p : Profile) : Type 0 where
  pub spends : p.spend_range.0 ≤ p.spend_range.1
  pub devices : p.graph.devices_per_household.0 ≤ p.graph.devices_per_household.1
  pub ips : p.graph.ips_per_household.0 ≤ p.graph.ips_per_household.1
  pub shared : p.graph.shared_ip_fraction ≤ one
  pub delays : p.events.conversion_delay.0 ≤ p.events.conversion_delay.1
  pub revenues : p.events.revenue_range.0 ≤ p.events.revenue_range.1
  pub late_minutes : p.events.late.minutes.0 ≤ p.events.late.minutes.1
  pub duplicates : p.events.duplicate_fraction ≤ one
  pub lates : p.events.late.fraction ≤ one
  pub caused : p.events.caused_conversion_rate ≤ one
  pub purchases : p.events.purchase_fraction ≤ one
  pub unknown_devices : p.events.unknown_device_fraction ≤ one
  pub households : 0 < p.graph.n_households
  pub exposures : 0 < p.events.n_exposures
  pub rate : 0 < p.events.events_per_hour
  pub campaigns : 0 < p.n_campaigns

module _ {E : Type 0} (ident_of : E → Ident) (ingest_of : E → Instant)
    (uniform : ℕ → ℕ → ℕ → ℕ) where
  -- the events that are sent again: those whose random number lies below the fraction
  unfoldable pub resent : ℕ → List E → List (ℕ × ℕ) → List E
  resent fraction [] draws = []
  resent fraction (e ∷ es) [] = []
  resent fraction (e ∷ es) ((draw, u) ∷ draws) =
      let rest = resent fraction es draws in if ltb draw fraction then e ∷ rest else rest

  slots-events :
      (events : List E) (tail : List (Slot E))
      → map (λ (s : Slot E). s.event) (map (first_slot ident_of ingest_of uniform) events ++ tail)
        ≡ events ++ map (λ (s : Slot E). s.event) tail
  slots-events [] tail = refl
  slots-events (e ∷ es) tail = ap (λ l. e ∷ l) (slots-events es tail)

  resend-events :
      (fraction : ℕ) (events : List E) (draws : List (ℕ × ℕ))
      → map
          (λ (s : Slot E). s.event)
          (resend_slots ident_of ingest_of uniform fraction events draws)
        ≡ resent fraction events draws
  unfolding resend_slots resent
  resend-events fraction [] draws = refl
  resend-events fraction (e ∷ es) [] = refl
  resend-events fraction (e ∷ es) ((draw, u) ∷ draws) = elim (Bool-cases (ltb draw fraction)) [
    | inl q ↦
        let some_late : ltb 0 fraction ≡ true = ground (arith, q) in
        rw (q, some_late) (ap (λ l. e ∷ l) (resend-events fraction es draws))
    | inr q ↦ rw (q, never (ltb 0 fraction)) (resend-events fraction es draws)
  ]
    where
      never : (b : Bool) → (b && false) ≡ false
      never true = refl
      never false = refl

  events-perm :
      {xs ys : List (Slot E)}
      → Permᴰ xs ys
      → Permᴰ (map (λ (s : Slot E). s.event) xs) (map (λ (s : Slot E). s.event) ys)
  events-perm Permᴰ.nil = Permᴰ.nil
  events-perm (Permᴰ.cons e d) = Permᴰ.cons (ap (λ (s : Slot E). s.event) e) (events-perm d)
  events-perm (Permᴰ.swap e f) =
      Permᴰ.swap (ap (λ (s : Slot E). s.event) e) (ap (λ (s : Slot E). s.event) f)
  events-perm (Permᴰ.trans p q) = Permᴰ.trans (events-perm p) (events-perm q)

  -- The stream has every event once, and once more where it is sent again, and nothing else.
  pub with_duplicates-perm :
      (fraction : ℕ) (events : List E) (draws : List (ℕ × ℕ))
      → Permᴰ
          (with_duplicates ident_of ingest_of uniform fraction events draws)
          (events ++ resent fraction events draws)
  unfolding with_duplicates
  with_duplicates-perm fraction events draws =
      let again = resend_slots ident_of ingest_of uniform fraction events draws in
      let slots = map (first_slot ident_of ingest_of uniform) events ++ again in
      let same =
        slots-events events again ∙ ap (λ l. events ++ l) (resend-events fraction events draws) in
      subst (Permᴰ (map (λ (s : Slot E). s.event) (sort_by slot_le slots))) same
        (events-perm (sort_by-perm slot_le slots))
