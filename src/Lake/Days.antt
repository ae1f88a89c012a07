-- ===== src/Lake/Days.antt =====
-- The days that a landing touches, and the reads by day.
use ctv_attribution_pipeline.Base.{
  ◌+◌, ◌*◌, ◌≡◌, refl, ◌∙◌, ◌&&◌, some, List, [], ◌∷◌, map, arith, ◌==◌, ltb, leb, mem,
}
use ctv_attribution_pipeline.Sort.Sets.{mem-sorted_set}
use ctv_attribution_pipeline.Model.{Instant}
use ctv_attribution_pipeline.Lake.{day_ms, Day, day_of, touched_days, in_days}

same_day :
    (d : Day) (t : Instant) → (leb (d * day_ms) t && ltb t (d * day_ms + day_ms)) ≡ (day_of t == d)
same_day d t = ground arith

pub in_days-mem : (days : List Day) (t : Instant) → in_days (some days) t ≡ mem (day_of t) days
in_days-mem [] t = refl
in_days-mem (d ∷ days) t = ground (arith, same_day d t, in_days-mem days t)

-- The set of days that a landing reports holds exactly the days of its rows, and a read of those days
-- selects a row exactly if a row of its day was landed.
pub touched_days-exact :
    (times : List Instant) (d : Day) (t : Instant)
    → (mem d (touched_days times) ≡ mem d (map day_of times))
      × (in_days (some (touched_days times)) t ≡ mem (day_of t) (map day_of times))
unfolding touched_days
touched_days-exact times d t = (
  mem-sorted_set d (map day_of times),
  in_days-mem (touched_days times) t ∙ mem-sorted_set (day_of t) (map day_of times),
)
