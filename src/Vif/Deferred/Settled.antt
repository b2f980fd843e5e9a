-- ===== src/Vif/Deferred/Settled.antt =====
-- That no request for an update is lost, src/lib/target/src/vif.c.
use opensync_platform_rdk.Common.{
  ℕ, ◌+◌, ◌≤◌, Bool, true, false, List, [], ◌∷◌, ◌++◌, if◌then◌else◌, ◌==◌, ==_iff, ◌≡◌, ◌⊎◌, refl,
  sym, ap, ◌∙◌, arith, Bool-cases, inl, inr, subst,
}
use opensync_platform_rdk.Vif.Deferred.{
  UpdateEntry, Happening, requested, updated, Deferred, found, rearm, unlink, vif_state_update_task,
  request, vif_state_update_deferred, armed_for, UpdateStep, asks, expires, turn,
}

-- Whether the interface was updated after the last request for it, if there was one.
unfoldable pub settled : ℕ → List Happening → Bool
settled i [] = true
settled i (updated j ∷ rest) = if i == j then true else settled i rest
settled i (requested j ∷ rest) = if i == j then false else settled i rest

unfoldable pub count : ℕ → List UpdateEntry → ℕ
count i [] = 0
count i (e ∷ es) = if i == e.ssid_index then 1 + count i es else count i es

-- No interface has two entries, one without a running timer has none and was updated after its last
-- request, and before the initialisation there is no entry.
pub record Kept (d : Deferred) : Type 0 where
  pub once : (i : ℕ) → count i d.queue ≤ 1
  pub served : (i : ℕ) → armed_for i d.queue ≡ false → settled i d.trace ≡ true
  pub before : d.init_done ≡ false → d.queue ≡ []

count-rearm : (i j : ℕ) (q : List UpdateEntry) → count i (rearm j q) ≡ count i q
unfolding count rearm
count-rearm i j [] = refl
count-rearm i j (e ∷ es) = ground (arith, count-rearm i j es)

count-unlink : (i j : ℕ) (q : List UpdateEntry) → count i (unlink j q) ≤ count i q
unfolding count unlink
count-unlink i j [] = omega arith
count-unlink i j (e ∷ es) = ground (arith, count-unlink i j es)

count-append :
    (i : ℕ) (q : List UpdateEntry) (e : UpdateEntry)
    → count i (q ++ e ∷ []) ≡ count i q + (if i == e.ssid_index then 1 else 0)
unfolding count
count-append i [] e = ground arith
count-append i (x ∷ xs) e = ground (arith, count-append i xs e)

count-found : (i : ℕ) (q : List UpdateEntry) → found i q ≡ false → count i q ≡ 0
unfolding count found
count-found i [] h = refl
count-found i (e ∷ es) h = ground (arith, h, count-found i es)

armed-rearm :
    (i j : ℕ) (q : List UpdateEntry)
    → found j q ≡ true
    → armed_for i (rearm j q) ≡ (if i == j then true else armed_for i q)
unfolding armed_for rearm found
armed-rearm i j [] h = ground (arith, h)
armed-rearm i j (e ∷ es) h = ground (arith, h, armed-rearm i j es)

armed-append :
    (i j : ℕ) (q : List UpdateEntry)
    → found j q ≡ false
    → armed_for i (q ++ record { ssid_index = j; armed = true } ∷ [])
      ≡ (if i == j then true else armed_for i q)
unfolding armed_for found
armed-append i j [] h = ground arith
armed-append i j (e ∷ es) h = ground (arith, h, armed-append i j es)

armed-unlink :
    (i j : ℕ) (q : List UpdateEntry) → (i == j) ≡ false → armed_for i (unlink j q) ≡ armed_for i q
unfolding armed_for unlink
armed-unlink i j [] h = refl
armed-unlink i j (e ∷ es) h = ground (arith, h, armed-unlink i j es)

once_new :
    (i j : ℕ) (q : List UpdateEntry)
    → found j q ≡ false
    → count i q ≤ 1
    → count i (q ++ record { ssid_index = j; armed = true } ∷ []) ≤ 1
once_new i j q e k =
    let a = count-append i q (record { ssid_index = j; armed = true }) in
    elim (Bool-cases (i == j)) [
      | inl f ↦
          let none_yet = ap (λ x. count x q) ((==_iff i j).0 f) ∙ count-found j q e in
          ground (arith, a, f, none_yet)
      | inr f ↦ ground (arith, a, f, k)
    ]

request-Kept : (j : ℕ) (d : Deferred) → d.init_done ≡ true → Kept d → Kept (request j d)
unfolding request settled
request-Kept j d on k = elim (Bool-cases (found j d.queue)) [
  | inl e ↦
      rw (request, e)
        (record {
          once = λ i. subst (λ n. n ≤ 1) (sym (count-rearm i j d.queue)) (k.once i);
          served = λ i h. served_again i (sym (armed-rearm i j d.queue e) ∙ h);
          before = λ h. absurd_bool (sym on ∙ h);
        })
  | inr e ↦
      rw (request, e)
        (record {
          once = λ i. once_new i j d.queue e (k.once i);
          served = λ i h. served_new i (sym (armed-append i j d.queue e) ∙ h);
          before = λ h. absurd_bool (sym on ∙ h);
        })
]
  where
    served_again :
        (i : ℕ)
        → (if i == j then true else armed_for i d.queue) ≡ false
        → settled i (updated j ∷ requested j ∷ d.trace) ≡ true
    served_again i h = ground (arith, h, k.served i)

    served_new :
        (i : ℕ)
        → (if i == j then true else armed_for i d.queue) ≡ false
        → settled i (requested j ∷ d.trace) ≡ true
    served_new i h = ground (arith, h, k.served i)

    absurd_bool : {A : Type 0} → true ≡ false → A
    absurd_bool h = ground (arith, h)

task-Kept : (j : ℕ) (d : Deferred) → d.init_done ≡ true → Kept d → Kept (vif_state_update_task j d)
unfolding vif_state_update_task settled
task-Kept j d on k = record {
  once = λ i. omega (arith, count-unlink i j d.queue, k.once i);
  served = λ i h. served_task i h (Bool-cases (i == j));
  before = λ h. absurd_bool (sym on ∙ h);
}
  where
    served_task :
        (i : ℕ)
        → armed_for i (unlink j d.queue) ≡ false
        → ((i == j) ≡ true) ⊎ ((i == j) ≡ false)
        → settled i (updated j ∷ d.trace) ≡ true
    served_task i h (inl e) = rw (e) refl
    served_task i h (inr e) = rw (e) (k.served i (sym (armed-unlink i j d.queue e) ∙ h))

    absurd_bool : {A : Type 0} → true ≡ false → A
    absurd_bool h = ground (arith, h)

cleared-Kept :
    (d : Deferred) → d.init_done ≡ false → Kept d → Kept (record d { init_done = true; queue = [] })
unfolding count armed_for
cleared-Kept d off k = record {
  once = λ i. omega arith;
  served = λ i h. k.served i (ap (armed_for i) (k.before off));
  before = λ h. refl;
}

armed-on : (j : ℕ) (d : Deferred) → Kept d → armed_for j d.queue ≡ true → d.init_done ≡ true
unfolding armed_for
armed-on j d k e = elim (Bool-cases d.init_done) [
  | inl f ↦ f
  | inr f ↦ f ∙ sym (ap (armed_for j) (k.before f)) ∙ e
]

turn-Kept : (s : UpdateStep) (d : Deferred) → Kept d → Kept (turn s d)
unfolding turn vif_state_update_deferred
turn-Kept (asks j) d k = elim (Bool-cases d.init_done) [
  | inl e ↦
      subst (λ x. Kept (request j x))
        (sym (ap (λ b. if b then d else record d { init_done = true; queue = [] }) e))
        (request-Kept j d e k)
  | inr e ↦
      subst (λ x. Kept (request j x))
        (sym (ap (λ b. if b then d else record d { init_done = true; queue = [] }) e))
        (request-Kept j (record d { init_done = true; queue = [] }) refl (cleared-Kept d e k))
]
turn-Kept (expires j) d k = elim (Bool-cases (armed_for j d.queue)) [
  | inl e ↦ rw (turn, e) (task-Kept j d (armed-on j d k e) k)
  | inr e ↦ rw (turn, e) k
]

unfoldable pub turns : List UpdateStep → Deferred → Deferred
unfolding turn
turns [] d = d
turns (s ∷ ss) d = turns ss (turn s d)

-- Requests and expiring timers, in any order, from a state in which it holds, keep this: no interface
-- has two entries in the queue, and an interface without a running timer was updated after the last
-- request for it.
pub turns-Kept : (steps : List UpdateStep) (d : Deferred) → Kept d → Kept (turns steps d)
unfolding turns
turns-Kept [] d k = k
turns-Kept (s ∷ ss) d k = turns-Kept ss (turn s d) (turn-Kept s d k)
