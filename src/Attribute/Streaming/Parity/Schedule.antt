-- ===== src/Attribute/Streaming/Parity/Schedule.antt =====
-- The schedule of the releases: when the watermark alone lets each conversion go.
use mathlib.Core.List.Permᴰ
use mathlib.Core.List.{Permᴰ}
use ctv_attribution_pipeline.Base.{
  ℕ, ◌≡◌, refl, Bool, true, false, Option, none, some, List, [], ◌∷◌, ◌++◌, arith, leb, ltb, filter,
  inl, inr, Bool-cases,
}
use mathlib.Core.List.{append_assoc, append-nil}
use ctv_attribution_pipeline.Sort.Stable.{sort_by, sort_by-perm}
use ctv_attribution_pipeline.Model.{Instant, ResolvedConversion}
use ctv_attribution_pipeline.Attribute.Streaming.{
  Event, exp, res, event_time_of, arrival_le, event_time_watermark, buffer_pending,
}
use ctv_attribution_pipeline.Attribute.Streaming.Arrival.{conversions_of}

abbrev pub due : Instant → ResolvedConversion → Bool
due w c = leb c.event_time w

abbrev pub waits : Instant → ResolvedConversion → Bool
waits w c = ltb w c.event_time

unfoldable pub order_from :
    ℕ → Option Instant → List ResolvedConversion → List Event → List ResolvedConversion
order_from lateness watermark pending [] = pending
order_from lateness watermark pending (ev ∷ evs) =
    let w = event_time_watermark watermark (event_time_of ev) lateness in
    let buffered = buffer_pending ev pending in
    filter (due w) buffered ++ order_from lateness (some w) (filter (waits w) buffered) evs

unfoldable pub release_order : ℕ → List Event → List ResolvedConversion
release_order lateness events = order_from lateness none [] (sort_by arrival_le events)

split_perm :
    (w : Instant) (cs : List ResolvedConversion)
    → Permᴰ (filter (due w) cs ++ filter (waits w) cs) cs
split_perm w [] = Permᴰ.nil
split_perm w (c ∷ cs) = elim (Bool-cases (leb c.event_time w)) [
  | inl e ↦
      let n : ltb w c.event_time ≡ false = ground arith in
      rw (e, n) (Permᴰ.cons refl (split_perm w cs))
  | inr e ↦
      let n : ltb w c.event_time ≡ true = ground arith in
      rw (e, n)
        (Permᴰ.trans (Permᴰ.middle c (filter (due w) cs) (filter (waits w) cs))
          (Permᴰ.cons refl (split_perm w cs)))
]

buffered_perm :
    (ev : Event) (evs : List Event) (pending : List ResolvedConversion)
    → Permᴰ (buffer_pending ev pending ++ conversions_of evs) (pending ++ conversions_of (ev ∷ evs))
unfolding conversions_of
buffered_perm (exp e) evs pending = Permᴰ.refl (pending ++ conversions_of evs)
buffered_perm (res r) evs pending = rw append_assoc (Permᴰ.refl (pending ++ r ∷ conversions_of evs))

order_from-perm :
    (lateness : ℕ) (watermark : Option Instant) (pending : List ResolvedConversion)
    (evs : List Event)
    → Permᴰ (order_from lateness watermark pending evs) (pending ++ conversions_of evs)
unfolding order_from conversions_of
order_from-perm lateness watermark pending [] = rw append-nil (Permᴰ.refl pending)
order_from-perm lateness watermark pending (ev ∷ evs) =
    let w = event_time_watermark watermark (event_time_of ev) lateness in
    let b = buffer_pending ev pending in
    Permᴰ.trans
      (Permᴰ.append_left (filter (due w) b)
        (order_from-perm lateness (some w) (filter (waits w) b) evs))
      (Permᴰ.trans (rw (← append_assoc) (Permᴰ.append_right (conversions_of evs) (split_perm w b)))
        (buffered_perm ev evs pending))

conversions-cons :
    (x : Event) (xs ys : List Event)
    → Permᴰ (conversions_of xs) (conversions_of ys)
    → Permᴰ (conversions_of (x ∷ xs)) (conversions_of (x ∷ ys))
unfolding conversions_of
conversions-cons (exp e) xs ys d = d
conversions-cons (res r) xs ys d = Permᴰ.cons refl d

conversions-swap :
    (x y : Event) (l : List Event) → Permᴰ (conversions_of (x ∷ y ∷ l)) (conversions_of (y ∷ x ∷ l))
unfolding conversions_of
conversions-swap (res r) (res q) l = Permᴰ.swap refl refl
conversions-swap (exp e) (res q) l = Permᴰ.refl (q ∷ conversions_of l)
conversions-swap (res r) (exp f) l = Permᴰ.refl (r ∷ conversions_of l)
conversions-swap (exp e) (exp f) l = Permᴰ.refl (conversions_of l)

conversions-perm :
    {xs ys : List Event} → Permᴰ xs ys → Permᴰ (conversions_of xs) (conversions_of ys)
conversions-perm Permᴰ.nil = Permᴰ.refl (conversions_of [])
conversions-perm (Permᴰ.cons {a = a} {l₁ = l} {l₂ = m} e d) =
    rw (← e) (conversions-cons a l m (conversions-perm d))
conversions-perm (Permᴰ.swap {a = a} {b = b} {l = l} e f) = rw (← e, ← f) (conversions-swap a b l)
conversions-perm (Permᴰ.trans p q) = Permᴰ.trans (conversions-perm p) (conversions-perm q)

-- The schedule releases every conversion of the events exactly once.
pub release_order-perm :
    (lateness : ℕ) (events : List Event)
    → Permᴰ (release_order lateness events) (conversions_of events)
unfolding release_order
release_order-perm lateness events =
    Permᴰ.trans (order_from-perm lateness none [] (sort_by arrival_le events))
      (conversions-perm (sort_by-perm arrival_le events))
