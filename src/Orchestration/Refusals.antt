-- ===== src/Orchestration/Refusals.antt =====
-- What a replay is refused for, and what one that raises has left.
use ctv_attribution_pipeline.Base.{
  ◌≢◌, any, not, Result-cases, empty_lake, unknown_partition, aborted, ◌≡◌, refl, ap, ◌∙◌, ◌⊎◌, inl,
  inr, Bool, true, false, ◌&&◌, Option, some, List, [], ◌∷◌, ◌==◌, ltb, filter, length, map_all,
  arith, Error, Result, ok, err, ◌>>=◌, pre_phase17, validation, Bool-cases,
}
use ctv_attribution_pipeline.Sort.Sets.{sorted_set}
use ctv_attribution_pipeline.Model.{Ident, AttributedConversion, validate}
use ctv_attribution_pipeline.Lake.{Lake, Day, read_row, current_rows, read_current}
use ctv_attribution_pipeline.LakeRoot.{Answer}
use ctv_attribution_pipeline.LakeRoot.Safety.{Agreed, confirm_or_abort-cases}
use ctv_attribution_pipeline.Serving.{
  load_attributed_day, insert_attributed, record_dirty_attributed_keys,
}
use ctv_attribution_pipeline.Orchestration.{
  World, Ran, Totals, after, is_unknown, no_totals, add_totals, load_exposures, load_attributed,
  keep_loaded, load_day, load_days, refresh, load_known, materialize_load, lake_days, truncate,
  truncate_and_reload, marked, replay_confirmed, check_replay, replay,
}

-- the raises of a row of the record that cannot be read
abbrev pub IsUnreadable : Error → Type 0
IsUnreadable e = (e ≡ pre_phase17) ⊎ (e ≡ validation)

validate-raises : (r : AttributedConversion) (e : Error) → validate r ≡ err e → e ≡ validation
unfolding validate
validate-raises r e h = ground (arith, h)

read_row-raises : (r : AttributedConversion) (e : Error) → read_row r ≡ err e → IsUnreadable e
unfolding read_row
read_row-raises r e h = by_set (
    Bool-cases
      (ltb 1 r.candidate_count && (elim r.candidate_households [ [] ↦ true | _ ∷ _ ↦ false ])))
  where
    by_set :
        ((ltb 1 r.candidate_count && (elim r.candidate_households [ [] ↦ true | _ ∷ _ ↦ false ]))
            ≡ true)
          ⊎ ((ltb 1 r.candidate_count
                && (elim r.candidate_households [ [] ↦ true | _ ∷ _ ↦ false ]))
              ≡ false)
        → IsUnreadable e
    by_set (inl q) = inl (cc (rw q at h))
    by_set (inr q) = inr (validate-raises r e (rw q at h))

-- a chain that raises did so in its first call, or in the rest
>>=-eq-err :
    {A B : Type 0} (call : Result A) (next : A → Result B) (e : Error)
    → (call >>= next) ≡ err e
    → (call ≡ err e) ⊎ ((a : A) × (call ≡ ok a) × (next a ≡ err e))
>>=-eq-err (err e') next e h = inl (cc h)
>>=-eq-err (ok a) next e h = inr (a, refl, h)

map_all-raises :
    {A B : Type 0} (f : A → Result B) (xs : List A) (e : Error)
    → ((x : A) → f x ≡ err e → IsUnreadable e)
    → map_all f xs ≡ err e
    → IsUnreadable e
map_all-raises f [] e only h = absurd (cc h)
map_all-raises f (x ∷ xs) e only h = elim (>>=-eq-err (f x) _ e h) [
  | inl q ↦ only x q
  | inr (y, _, h') ↦ elim (>>=-eq-err (map_all f xs) _ e h') [
    | inl q ↦ map_all-raises f xs e only q
    | inr (ys, _, h'') ↦ absurd (cc h'')
  ]
]

read_current-raises :
    (days : Option (List Day)) (lake : Lake) (e : Error)
    → read_current days lake ≡ err e
    → IsUnreadable e
unfolding read_current
read_current-raises days lake e h =
    map_all-raises read_row (current_rows days lake) e (λ r. read_row-raises r e) h

-- the same for calls that leave a world
after-raises :
    {A B : Type 0} (r : Ran A) (next : A → World → Ran B) (e : Error)
    → (after r next).0 ≡ err e
    → (r.0 ≡ err e) ⊎ ((a : A) × (w : World) × ((next a w).0 ≡ err e))
after-raises (err e', w) next e h = inl (cc h)
after-raises (ok a, w) next e h = inr (a, w, h)

err-eq : {A : Type 0} {a b : Error} → Path (Result A) (err a) (err b) → a ≡ b
err-eq h = cc

load_attributed-raises :
    (d : Day) (w : World) (e : Error) → (load_attributed d w).0 ≡ err e → IsUnreadable e
unfolding load_attributed load_attributed_day
load_attributed-raises d w e h = by_read (read_current (some (d ∷ [])) w.lake) refl h
  where
    by_read :
        (r : Result (List AttributedConversion))
        → read_current (some (d ∷ [])) w.lake ≡ r
        → (keep_loaded w (
            r >>= λ rows.
            ok (length rows, record_dirty_attributed_keys d (insert_attributed rows w.tables)))).0
          ≡ err e
        → IsUnreadable e
    by_read (err e') q k = read_current-raises (some (d ∷ [])) w.lake e (q ∙ ap err (err-eq k))
    by_read (ok rows) q k = absurd (cc k)

load_day-raises :
    (d : Day) (totals : Totals) (w : World) (e : Error)
    → (load_day d totals w).0 ≡ err e
    → IsUnreadable e
unfolding load_day load_exposures
load_day-raises d totals w e h =
    elim (after-raises (load_exposures d w)
      (λ n w₁. after (load_attributed d w₁) (λ m w₂. (ok (add_totals n m totals), w₂))) e h) [
        | inl q ↦ absurd (cc q)
        | inr (n, w₁, h') ↦
            elim (after-raises (load_attributed d w₁) (λ m w₂. (ok (add_totals n m totals), w₂)) e
              h') [ inl q ↦ load_attributed-raises d w₁ e q | inr (m, w₂, h'') ↦ absurd (cc h'') ]
      ]

load_days-raises :
    (ds : List Day) (totals : Totals) (w : World) (e : Error)
    → (load_days ds totals w).0 ≡ err e
    → IsUnreadable e
unfolding load_days
load_days-raises [] totals w e h = absurd (cc h)
load_days-raises (d ∷ ds) totals w e h = elim (after-raises (load_day d totals w) _ e h) [
  | inl q ↦ load_day-raises d totals w e q
  | inr (n, w₁, h') ↦ load_days-raises ds n w₁ e h'
]

refresh-raises :
    (totals : Totals) (w : World) (e : Error) → (refresh totals w).0 ≡ err e → IsUnreadable e
unfolding refresh
refresh-raises totals w e h = absurd (cc h)

any-filter : (days : List Day) → any is_unknown days ≡ not (length (filter is_unknown days) == 0)
any-filter [] = refl
any-filter (d ∷ days) = ground (arith, any-filter days)

-- a reload of known days
reload-raises :
    (days : List Day) (w : World) (e : Error)
    → days ≢ []
    → any is_unknown days ≡ false
    → (truncate_and_reload days w).0 ≡ err e
    → IsUnreadable e
unfolding truncate_and_reload materialize_load
reload-raises [] w e some_day known h = absurd (some_day refl)
reload-raises (d ∷ ds) w e some_day known h =
    by_known (filter is_unknown (d ∷ ds)) (ground (arith, known, any-filter (d ∷ ds))) h
  where
    by_known :
        (unknown : List Day)
        → (length unknown == 0) ≡ true
        → (load_known (d ∷ ds) unknown (record w { tables = truncate w.tables })).0 ≡ err e
        → IsUnreadable e
    by_known (u ∷ us) k h = ground (arith, k)
    by_known [] k h =
        elim (after-raises
          (load_days (sorted_set (d ∷ ds)) no_totals (record w { tables = truncate w.tables }))
          refresh e h) [
            | inl q ↦ load_days-raises (sorted_set (d ∷ ds)) no_totals _ e q
            | inr (n, w₁, h') ↦ refresh-raises n w₁ e h'
          ]

-- what a replay is refused for: no day in the lake, a day outside the calendar, or no consent
abbrev pub Refusal : List Day → Bool → Answer → Error → Type 0
Refusal days confirmed answer e =
    ((e ≡ empty_lake) × (days ≡ []))
    ⊎ ((e ≡ unknown_partition) × (any is_unknown days ≡ true))
    ⊎ ((e ≡ aborted) × ¬ Agreed confirmed answer)

-- what it takes to go on
abbrev pub Permitted : List Day → Bool → Answer → Type 0
Permitted days confirmed answer =
    (days ≢ []) × (any is_unknown days ≡ false) × Agreed confirmed answer

-- a list without an item
no_items : (days : List Day) → (length days == 0) ≡ true → days ≡ []
no_items [] h = refl
no_items (d ∷ days) h = absurd (ground (arith, h))

some_items : (days : List Day) → (length days == 0) ≡ false → days ≢ []
some_items days h e = absurd (cc (rw e at h))

-- the guards of a replay, in the order of the code
check_replay-cases :
    (days : List Day) (confirmed : Bool) (answer : Answer)
    → ((check_replay days confirmed answer ≡ ok tt) × Permitted days confirmed answer)
      ⊎ ((e : Error) × (check_replay days confirmed answer ≡ err e)
          × Refusal days confirmed answer e)
unfolding check_replay
check_replay-cases days confirmed answer = elim (Bool-cases (length days == 0)) [
  | inl p ↦ rw p (inr (empty_lake, refl, inl (refl, no_items days p)))
  | inr p ↦ elim (Bool-cases (length (filter is_unknown days) == 0)) [
    | inr q ↦
        rw (p, q) (inr (unknown_partition, refl, inr (inl (refl, any-filter days ∙ ap not q))))
    | inl q ↦
        rw (p, q)
          (elim (confirm_or_abort-cases confirmed answer) [
            | inl (c, agreed) ↦ inl (c, (some_items days p, any-filter days ∙ ap not q, agreed))
            | inr (c, refused) ↦ inr (aborted, c, inr (inr (refl, refused)))
          ])
  ]
]

-- A replay either is refused (the lake is empty, a day of it lies outside the calendar, or the user did
-- not agree) and leaves the world as it was, or none of the three is so, and it returns or stops at a
-- row of the record that cannot be read.
pub replay-refuses :
    (profile : Ident) (confirmed : Bool) (answer : Answer) (w : World)
    → ((e : Error) × (replay profile confirmed answer w ≡ (err e, w))
        × Refusal (lake_days w.lake) confirmed answer e)
      ⊎ (Permitted (lake_days w.lake) confirmed answer
          × (((totals : Totals) × ((replay profile confirmed answer w).0 ≡ ok totals))
              ⊎ ((e : Error) × ((replay profile confirmed answer w).0 ≡ err e) × IsUnreadable e)))
unfolding replay
replay-refuses profile confirmed answer w =
    let days = lake_days w.lake in
    elim (check_replay-cases days confirmed answer) [
      | inr (e, c, refusal) ↦ inl (e, ap (replay_confirmed profile days w) c, refusal)
      | inl (c, permitted) ↦ inr (permitted, rw c (goes_on days permitted.0 permitted.1))
    ]
  where
    goes_on :
        (days : List Day)
        → days ≢ []
        → any is_unknown days ≡ false
        → let r = replay_confirmed profile days w (ok tt) in
          ((totals : Totals) × (r.0 ≡ ok totals)) ⊎ ((e : Error) × (r.0 ≡ err e) × IsUnreadable e)
    goes_on days some_day known = elim (Result-cases (replay_confirmed profile days w (ok tt)).0) [
      | inl made ↦ inl made
      | inr (e, h) ↦ inr (
        e,
        h,
        elim (after-raises (truncate_and_reload days w) (marked profile) e h) [
          | inl k ↦ reload-raises days w e some_day known k
          | inr (n, w₁, k) ↦ absurd (cc k)
        ],
      )
    ]
