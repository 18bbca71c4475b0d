-- ===== src/Routing/RoundRobin/Rotation.antt =====
-- As many consecutive calls of the round robin as there are endpoints choose each of them once.
use mathlib.Core.List.{Perm, perm_append_comm, map-append}
use mathlib.Core.List.Perm
use mathlib.Core.Path.{ap₂}
use native.Mathlib.Nat.{mod-lt, mod-add-mod, mod-eq_of_lt, mod_self}
use native.Mathlib.Numerals.{add-one}
use vllm_production_stack_cu.Base.{
  ℕ, zero, suc, ◌+◌, ◌-◌, ◌%◌, ◌≤◌, ◌<◌, String, ◌≡◌, refl, ap, sym, ◌∙◌, some, List, [], ◌∷◌, ◌++◌,
  map, arith, length, get_elem?, take, drop, take-append-drop, length-drop,
}
use vllm_production_stack_cu.Base.Sort.{sort_by-perm}
use vllm_production_stack_cu.Discovery.{urls}
use vllm_production_stack_cu.Routing.RoundRobin.{EndpointList, RoundRobin, route_request}
use vllm_production_stack_cu.Routing.RoundRobin.Cycle.{
  turn_order, Served, next, route_request-TakesTurn, calls, IsHonest-refl, length-turn_order,
}

module _ {A : Type 0} where
  take-drop_cons :
      (k m : ℕ) (xs : List A) (a : A)
      → get_elem? xs m ≡ some a
      → take (suc k) (drop m xs) ≡ a ∷ take k (drop (suc m) xs)
  take-drop_cons k m [] a e = cc
  take-drop_cons k zero (x ∷ xs) a e = ground arith
  take-drop_cons k (suc m) (x ∷ xs) a e = take-drop_cons k m xs a e

  take_all : (k : ℕ) (xs : List A) → length xs ≤ k → take k xs ≡ xs
  take_all zero [] h = refl
  take_all zero (x ∷ xs) h = absurd (omega arith)
  take_all (suc k) [] h = refl
  take_all (suc k) (x ∷ xs) h = ap (◌∷◌ x) (take_all k xs (omega arith))

mod_step : (r n : ℕ) → 0 < n → r % n + 1 < n → (r + 1) % n ≡ r % n + 1
mod_step r n pos h = sym (mod-add-mod r n 1) ∙ mod-eq_of_lt h

mod_wrap : (r n : ℕ) → 0 < n → (r + (n - r % n)) % n ≡ 0
mod_wrap r n pos =
    let e : r % n + (n - r % n) ≡ n = omega (arith, mod-lt r pos) in
    sym (mod-add-mod r n (n - r % n)) ∙ ap (λ k. k % n) e ∙ mod_self n

module _ (hash : List String → ℕ) where
  after : ℕ → RoundRobin → EndpointList → RoundRobin
  after zero s l = s
  after (suc k) s l = after k (route_request hash s l).0 l

  calls-add :
      (a b : ℕ) (s : RoundRobin) (l : EndpointList)
      → calls hash (a + b) s l ≡ calls hash a s l ++ calls hash b (after a s l) l
  unfolding calls after
  calls-add zero b s l = let e : 0 + b ≡ b = omega arith in rw e refl
  calls-add (suc a) b s l =
      let e : suc a + b ≡ suc (a + b) = omega arith in
      rw e (ap (◌∷◌ (route_request hash s l).1) (calls-add a b (route_request hash s l).0 l))

  after-Served :
      (k : ℕ) {s : RoundRobin} {l : EndpointList}
      → 0 < length l.items
      → Served hash s l
      → Served hash (after k s l) l × ((after k s l).req_id ≡ s.req_id + k)
  unfolding after
  after-Served zero pos r = (r, omega arith)
  after-Served (suc k) {s} {l} pos r =
      let (u, at, answer, count) = route_request-TakesTurn hash l r (IsHonest-refl hash l) pos in
      let (served, total) = after-Served k pos (next l r (IsHonest-refl hash l)) in
      (served, omega (arith, total, count))

  -- calls that do not reach the end of the list
  calls-take :
      (k m : ℕ) {s : RoundRobin} {l : EndpointList}
      → Served hash s l
      → s.req_id % length l.items ≡ m
      → 0 < length l.items
      → m + k ≤ length l.items
      → calls hash k s l ≡ map some (take k (drop m (turn_order l)))
  unfolding calls
  calls-take zero m r e pos h = refl
  calls-take (suc zero) m {s} {l} r e pos h =
      let (u, at, answer, count) = route_request-TakesTurn hash l r (IsHonest-refl hash l) pos in
      rw (answer, take-drop_cons 0 m (turn_order l) u (rw e at at)) refl
  calls-take (suc (suc k)) m {s} {l} r e pos h =
      let (u, at, answer, count) = route_request-TakesTurn hash l r (IsHonest-refl hash l) pos in
      let rest =
        calls-take (suc k) (suc m) (next l r (IsHonest-refl hash l))
          (ap (λ i. i % length l.items) count
            ∙ mod_step s.req_id (length l.items) pos (omega arith)
            ∙ ap (λ i. i + 1) e
            ∙ add-one m)
          pos (omega arith) in
      rw (answer, rest, take-drop_cons (suc k) m (turn_order l) u (rw e at at)) refl

  -- From any state that honest calls lead to (lists with the same `id` or the same hash have the
  -- same urls), as many further calls on the last list as it has endpoints answer with its urls in
  -- turn order, from the one whose turn it is to the one before it: each endpoint is chosen exactly
  -- once.
  pub calls-rotation :
      {s : RoundRobin} {l : EndpointList}
      → Served hash s l
      → 0 < length l.items
      → (calls hash (length l.items) s l
          ≡ map some (
              drop (s.req_id % length l.items) (turn_order l)
              ++ take (s.req_id % length l.items) (turn_order l)))
        × Perm (calls hash (length l.items) s l) (map some (urls l.items))
  calls-rotation {s} {l} r pos =
      let n = length l.items in
      let m = s.req_id % n in
      let xs = turn_order l in
      let lt = mod-lt s.req_id pos in
      let len = length-turn_order hash l in
      let (served, total) = after-Served (n - m) pos r in
      let first = calls-take (n - m) m r refl pos (omega arith) in
      let second =
        calls-take m 0 served (ap (λ i. i % n) total ∙ mod_wrap s.req_id n pos) pos (omega arith) in
      let whole = take_all (n - m) (drop m xs) (omega (arith, length-drop m xs)) in
      let split : n ≡ (n - m) + m = omega arith in
      let e : calls hash n s l ≡ map some (drop m xs ++ take m xs) =
        ap (λ k. calls hash k s l) split
        ∙ calls-add (n - m) m s l
        ∙ ap₂ ◌++◌ (first ∙ ap (map some) whole) second
        ∙ sym (map-append some (drop m xs) (take m xs)) in
      let turned : Perm (drop m xs ++ take m xs) (urls l.items) =
        Perm.trans (perm_append_comm (drop m xs) (take m xs))
          (rw (take-append-drop m xs) (sort_by-perm (λ u. u) (urls l.items))) in
      (e, rw e (Perm.map some turned))
