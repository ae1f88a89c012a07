-- ===== src/Resolve/Index.antt =====
-- What the device-graph index holds.
use mathlib.Core.Path.{subst}
use ctv_attribution_pipeline.Base.{
  false, none, sym, ◌∙◌, Distinct, Bool-cases, inl, inr, ==_iff, ◌≡◌, refl, ap, Bool, ◌&&◌, ◌||◌,
  Option, some, List, [], ◌∷◌, arith, ◌==◌, if◌then◌else◌, mem, mem-append, any,
}
use ctv_attribution_pipeline.Sort.Sets.{Ascending, mem-sorted_set, sorted_set-Ascending}
use ctv_attribution_pipeline.Dict.{Dict, lookup, insert, get_or, append_at, keys}
use ctv_attribution_pipeline.Dict.Laws.{lookup-insert, get_or-append_at, get_or-map_sorted}
use ctv_attribution_pipeline.Model.{Ident, Household}
use ctv_attribution_pipeline.Resolve.{latest_from, add_ips, owner_sets, from_households}

mem-add_ips :
    (hid x ip : Ident) (ips : List Ident) (m : Dict (List Ident))
    → mem x (get_or [] ip (add_ips hid ips m))
      ≡ ((x == hid && mem ip ips) || mem x (get_or [] ip m))
unfolding add_ips
mem-add_ips hid x ip [] m = ground arith
mem-add_ips hid x ip (j ∷ ips) m = ground (
  arith,
  mem-add_ips hid x ip ips (append_at j hid m),
  get_or-append_at j ip hid m,
  mem-append x (get_or [] j m) (hid ∷ []),
)

-- household `e.0`, as last seen, lists the address
abbrev pub lists_ip : Ident → Ident → Ident × Household → Bool
lists_ip x ip e = x == e.0 && mem ip e.1.ips

mem-owner_sets :
    (x ip : Ident) (es : Dict Household) (m : Dict (List Ident))
    → mem x (get_or [] ip (owner_sets es m)) ≡ (any (lists_ip x ip) es || mem x (get_or [] ip m))
unfolding owner_sets
mem-owner_sets x ip [] m = refl
mem-owner_sets x ip (e ∷ es) m =
    ground (arith, mem-owner_sets x ip es (add_ips e.0 e.1.ips m), mem-add_ips e.0 x ip e.1.ips m)

abbrev pub owners : List Household → Ident → List Ident
owners households ip = get_or [] ip (from_households households).owners_of

-- the last message about a household, read off the messages alone
abbrev pub last_of : Ident → Option Household → List Household → Option Household
last_of k o [] = o
last_of k o (h ∷ hs) = last_of k (if k == h.household_id then some h else o) hs

-- Replaying the compacted topic leaves, for each household, its last message.
lookup-latest_from :
    (k : Ident) (d : Dict Household) (hs : List Household)
    → lookup k (latest_from d hs) ≡ last_of k (lookup k d) hs
unfolding latest_from
lookup-latest_from k d [] = refl
lookup-latest_from k d (h ∷ hs) =
    rw (lookup-latest_from k (insert h.household_id h d) hs)
      (ap (λ o. last_of k o hs) (lookup-insert h.household_id k h d))

mem-keys-insert :
    (x k : Ident) (v : Household) (d : Dict Household)
    → mem x (keys (insert k v d)) ≡ (x == k || mem x (keys d))
unfolding insert
mem-keys-insert x k v [] = ground arith
mem-keys-insert x k v (e ∷ d) = ground (arith, mem-keys-insert x k v d)

insert-Distinct :
    (k : Ident) (v : Household) (d : Dict Household)
    → Distinct (keys d)
    → Distinct (keys (insert k v d))
unfolding insert
insert-Distinct k v [] h = (refl, tt)
insert-Distinct k v (e ∷ d) h = elim (Bool-cases (k == e.0)) [
  | inl q ↦ rw q h
  | inr q ↦ rw q (mem-keys-insert e.0 k v d ∙ ground (arith, q, h.0), insert-Distinct k v d h.1)
]

latest_from-Distinct :
    (d : Dict Household) (hs : List Household)
    → Distinct (keys d)
    → Distinct (keys (latest_from d hs))
unfolding latest_from
latest_from-Distinct d [] h = h
latest_from-Distinct d (v ∷ hs) h =
    latest_from-Distinct (insert v.household_id v d) hs (insert-Distinct v.household_id v d h)

-- a message, if there is one, that lists the address
abbrev pub has_ip : Ident → Option Household → Bool
has_ip ip none = false
has_ip ip (some h) = mem ip h.ips

lists_ip-absent :
    (x ip : Ident) (d : Dict Household) → mem x (keys d) ≡ false → any (lists_ip x ip) d ≡ false
lists_ip-absent x ip [] h = refl
lists_ip-absent x ip (e ∷ d) h = ground (arith, h, lists_ip-absent x ip d)

lists_ip-lookup :
    (x ip : Ident) (d : Dict Household)
    → Distinct (keys d)
    → any (lists_ip x ip) d ≡ has_ip ip (lookup x d)
unfolding lookup
lists_ip-lookup x ip [] h = refl
lists_ip-lookup x ip (e ∷ d) h = elim (Bool-cases (x == e.0)) [
  | inl q ↦ rw q (
      ground (
        arith,
        lists_ip-absent x ip d (subst (λ k. mem k (keys d) ≡ false) (sym ((==_iff x e.0).0 q)) h.0),
      ))
  | inr q ↦ rw q (lists_ip-lookup x ip d h.1)
]

-- The owners of an address are the households whose last message in the topic lists it, each once, in
-- ascending order.
pub owners_exact :
    (households : List Household) (x ip : Ident)
    → Ascending (owners households ip)
      × (mem x (owners households ip) ≡ has_ip ip (last_of x none households))
unfolding from_households
owners_exact households x ip =
    let sets = owner_sets (latest_from [] households) [] in
    (
      rw (get_or-map_sorted ip sets) (sorted_set-Ascending (get_or [] ip sets)),
      ground (
        arith,
        get_or-map_sorted ip sets,
        mem-sorted_set x (get_or [] ip sets),
        mem-owner_sets x ip (latest_from [] households) [],
        nothing_at ip,
        lists_ip-lookup x ip (latest_from [] households) (latest_from-Distinct [] households tt),
        lookup-latest_from x [] households,
        nothing_known x,
      ),
    )
  where
    nothing_at : (ip : Ident) → get_or {V = List Ident} [] ip [] ≡ []
    nothing_at ip = unfold get_or in refl

    nothing_known : (x : Ident) → lookup {V = Household} x [] ≡ none
    nothing_known x = unfold lookup in refl
