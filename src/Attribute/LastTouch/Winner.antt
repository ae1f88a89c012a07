-- ===== src/Attribute/LastTouch/Winner.antt =====
-- `max` by `(event_time, exposure_id)`: the credited touch is one of the list, none exceeds it, and two
-- lists with the same touches credit the same one.
use ctv_attribution_pipeline.Base.{
  ◌≡◌, refl, sym, ap, ◌∙◌, inl, inr, Bool, true, false, ◌&&◌, ◌||◌, not, List, [], ◌∷◌, map, arith,
  ◌==◌, ltb, filter, mem, Bool-cases,
}
use ctv_attribution_pipeline.Sort.Sets.{sorted_set-eq, mem-sorted_set}
use ctv_attribution_pipeline.Model.{Ident, Instant, Exposure}
use ctv_attribution_pipeline.Attribute.LastTouch.{latest_touch, assist_ids}

-- a touch of an exposure `i` at `t` is in the list
unfoldable pub touched : Instant → Ident → List Exposure → Bool
touched t i [] = false
touched t i (e ∷ es) = (t == e.event_time && i == e.exposure_id) || touched t i es

abbrev pub SameTouches : List Exposure → List Exposure → Type 0
SameTouches es fs = (t : Instant) (i : Ident) → touched t i es ≡ touched t i fs

-- `(t, i)` does not exceed the touch of `w`
abbrev pub below : Instant → Ident → Exposure → Bool
below t i w = not (ltb w.event_time t || (w.event_time == t && ltb w.exposure_id i))

pub latest_touch-touched :
    (e : Exposure) (es : List Exposure)
    → let w = latest_touch e es in touched w.event_time w.exposure_id (e ∷ es) ≡ true
unfolding latest_touch touched
latest_touch-touched e [] = ground arith
latest_touch-touched e (x ∷ xs) =
    ground (arith, latest_touch-touched e xs, latest_touch-touched x xs)

-- the winner of a longer list is not below its head
latest_touch-ge :
    (e : Exposure) (es : List Exposure)
    → below e.event_time e.exposure_id (latest_touch e es) ≡ true
unfolding latest_touch
latest_touch-ge e [] = ground arith
latest_touch-ge e (x ∷ xs) = ground (arith, latest_touch-ge e xs, latest_touch-ge x xs)

pub latest_touch-max :
    (t : Instant) (i : Ident) (e : Exposure) (es : List Exposure)
    → touched t i (e ∷ es) ≡ true
    → below t i (latest_touch e es) ≡ true
unfolding touched latest_touch
latest_touch-max t i e [] h = ground arith
latest_touch-max t i e (x ∷ xs) h = ground (
  arith,
  latest_touch-max t i e xs,
  latest_touch-max t i x xs,
  latest_touch-ge e xs,
  latest_touch-ge x xs,
)

-- The credited touch depends on the set of touches only.
pub latest_touch-eq :
    (e f : Exposure) (es fs : List Exposure)
    → SameTouches (e ∷ es) (f ∷ fs)
    → ((latest_touch e es).event_time ≡ (latest_touch f fs).event_time)
      × ((latest_touch e es).exposure_id ≡ (latest_touch f fs).exposure_id)
latest_touch-eq e f es fs h =
    let v = latest_touch e es in
    let w = latest_touch f fs in
    antisym v w
      (latest_touch-max w.event_time w.exposure_id e es
        (h w.event_time w.exposure_id ∙ latest_touch-touched f fs))
      (latest_touch-max v.event_time v.exposure_id f fs
        (sym (h v.event_time v.exposure_id) ∙ latest_touch-touched e es))
  where
    antisym :
        (v w : Exposure)
        → below w.event_time w.exposure_id v ≡ true
        → below v.event_time v.exposure_id w ≡ true
        → (v.event_time ≡ w.event_time) × (v.exposure_id ≡ w.exposure_id)
    antisym v w p q = ground arith

ids : List Exposure → List Ident
ids = map (λ e. e.exposure_id)

-- an identifier of the list was touched at some instant
touch_of_id :
    (i : Ident) (es : List Exposure)
    → mem i (ids es) ≡ true
    → (t : Instant) × (touched t i es ≡ true)
unfolding ids touched
touch_of_id i [] h = cc
touch_of_id i (e ∷ es) h = elim (Bool-cases (i == e.exposure_id)) [
  | inl p ↦ (e.event_time, ground arith)
  | inr p ↦ let (t, q) = touch_of_id i es (ground arith) in (t, ground arith)
]

id_of_touch :
    (t : Instant) (i : Ident) (es : List Exposure) → touched t i es ≡ true → mem i (ids es) ≡ true
unfolding ids touched
id_of_touch t i [] h = cc
id_of_touch t i (e ∷ es) h = ground (arith, id_of_touch t i es)

ids_le :
    (i : Ident) (es fs : List Exposure)
    → SameTouches es fs
    → mem i (ids es) ≡ true
    → mem i (ids fs) ≡ true
ids_le i es fs h m = let (t, p) = touch_of_id i es m in id_of_touch t i fs (sym (h t i) ∙ p)

mem-ids_eq :
    (i : Ident) (es fs : List Exposure) → SameTouches es fs → mem i (ids es) ≡ mem i (ids fs)
mem-ids_eq i es fs h =
    same (mem i (ids es)) (mem i (ids fs)) (ids_le i es fs h) (ids_le i fs es (λ t j. sym (h t j)))
  where
    same : (a b : Bool) → (a ≡ true → b ≡ true) → (b ≡ true → a ≡ true) → a ≡ b
    same a b p q = ground arith

mem-filter_ne :
    (i w : Ident) (xs : List Ident)
    → mem i (filter (λ j. not (j == w)) xs) ≡ (mem i xs && not (i == w))
mem-filter_ne i w [] = refl
mem-filter_ne i w (x ∷ xs) = ground (arith, mem-filter_ne i w xs)

-- An assist is a touch's identifier other than the credited one.
pub mem-assist_ids :
    (i w : Ident) (es : List Exposure)
    → mem i (assist_ids w es) ≡ (mem i (map (λ e. e.exposure_id) es) && not (i == w))
unfolding assist_ids
mem-assist_ids i w es = mem-sorted_set i _ ∙ mem-filter_ne i w (map (λ e. e.exposure_id) es)

-- The assists depend on the set of touches only.
pub assist_ids-eq :
    (w : Ident) (es fs : List Exposure) → SameTouches es fs → assist_ids w es ≡ assist_ids w fs
unfolding assist_ids ids
assist_ids-eq w es fs h = sorted_set-eq _ _ (λ i.
    mem-filter_ne i w (ids es)
    ∙ ap (λ b. b && not (i == w)) (mem-ids_eq i es fs h)
    ∙ sym (mem-filter_ne i w (ids fs)))
