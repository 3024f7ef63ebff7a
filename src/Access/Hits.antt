-- ===== src/Access/Hits.antt =====
-- addons/mezze_bridge/models/rate_limit.py: how many hits a window allows.
use menes_pos.Prelude.{
  ℕ, suc, ◌-◌, String, ◌≡◌, refl, sym, ◌∙◌, subst, inl, inr, false, List, [], ◌∷◌, arith, leb,
  if◌then◌else◌, str_eq_iff, ==_iff, Bool-cases, length, All,
}
use menes_pos.Access.Rate.{Counter, is_counter, add_hit, window_of, Limiter, hit, fail_closed}

abbrev pub count_of : String → ℕ → List Counter → ℕ
count_of key window [] = 0
count_of key window (c ∷ cs) =
    let rest = count_of key window cs in if is_counter key window c then c.count else rest

add_hit-count :
    (key : String) (window : ℕ) (cs : List Counter)
    → ((add_hit key window cs).0 ≡ suc (count_of key window cs))
      × (count_of key window (add_hit key window cs).1 ≡ suc (count_of key window cs))
add_hit-count key window [] =
    (refl, rw ((str_eq_iff key key).1 refl, (==_iff window window).1 refl) refl)
add_hit-count key window (c ∷ cs) = elim (Bool-cases (is_counter key window c)) [
  | inl same ↦ rw (same, same) (refl, refl)
  | inr other ↦ let (count, next) = add_hit-count key window cs in rw (other, other) (count, next)
]

-- How many of the hits at some times are allowed, the shared counters being there.
unfoldable pub allowed : String → ℕ → ℕ → List ℕ → Limiter → ℕ
allowed key limit seconds [] l = 0
allowed key limit seconds (now ∷ later) l =
    let answer = hit false fail_closed key limit seconds now l in
    let rest = allowed key limit seconds later answer.1 in
    if answer.0.is_allowed then suc rest else rest

abbrev pub lesser : ℕ → ℕ → ℕ
lesser m n = if leb m n then m else n

-- Of the hits of a key in one window, the shared counters being there, as many are allowed as the
-- limit has left of what was counted before, or all of them where they are fewer.
pub allowed_within :
    (key : String) (limit seconds window : ℕ) (times : List ℕ) (l : Limiter)
    → All (λ now. window_of now seconds ≡ window) times
    → allowed key limit seconds times l
      ≡ lesser (length times) (limit - count_of key window l.counters)
unfolding allowed hit
allowed_within key limit seconds window [] l h = ground arith
allowed_within key limit seconds window (now ∷ later) l (h, hs) =
    let (count, next) = add_hit-count key window l.counters in
    let after : Limiter = record l { counters = (add_hit key window l.counters).1 } in
    let rest = allowed_within key limit seconds window later after hs in
    rw h (
      one_more _ count (
        subst (λ n. allowed key limit seconds later after ≡ lesser (length later) (limit - n))
          (next ∙ sym count) rest))
  where
    one_more :
        (n : ℕ)
        → n ≡ suc (count_of key window l.counters)
        → allowed key limit seconds later
            (record l { counters = (add_hit key window l.counters).1 })
          ≡ lesser (length later) (limit - n)
        → (if leb n limit
            then suc (
                allowed key limit seconds later
                  (record l { counters = (add_hit key window l.counters).1 }))
            else allowed key limit seconds later
                (record l { counters = (add_hit key window l.counters).1 }))
          ≡ lesser (suc (length later)) (limit - count_of key window l.counters)
    one_more n e le = ground arith
