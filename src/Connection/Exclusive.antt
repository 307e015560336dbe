-- ===== src/Connection/Exclusive.antt =====
-- connection.c: who runs the commands of a connection.
use yastg.Connection.Ops.{
  at_first, Conn, Stage, Step, ask, by_worker, finish, goes_to, hand_over, release, running, skip,
  start, taken, test, tested, unlist, wait,
}
use yastg.Prelude.{==_iff, Bool-cases, arith, false, inl, inr, true, ℕ, ◌==◌, ◌≡◌, ◌≢◌, ◌⊎◌}
use yastg.Connection.Ops.{
  at_first, Phase, by_server, pick_up, released, then, unlisted, unlocked, waited, waiting,
}
use yastg.Prelude.{Bool, ap, refl, sym, ◌||◌, ◌∙◌}
use yastg.Connection.Ops.{at_first, ConnReached}

record Inv (s : Conn) : Type 0 where
  flagged : (i : ℕ) → s.stage i ≡ running → s.worker ≡ true
  alone : (i j : ℕ) → s.stage i ≡ running → s.stage j ≡ running → i ≡ j
  locks : (i : ℕ) → s.stage i ≡ taken → s.lock ≡ by_worker i
  holds : (i : ℕ) → s.stage i ≡ tested → s.lock ≡ by_worker i
  unflagged : (i : ℕ) → s.stage i ≡ tested → s.worker ≡ false

gone :
    (stage : ℕ → Stage) (i q : ℕ) (next now : Stage)
    → goes_to stage i next q ≡ now
    → ((i ≡ q) × (next ≡ now)) ⊎ ((i ≢ q) × (stage q ≡ now))
gone stage i q next now e = elim (Bool-cases (i == q)) [
  | inl k ↦ inl ((==_iff i q).0 k, rw k at e)
  | inr k ↦ inr (λ j. ground (arith, k, j), rw k at e)
]

-- A thread that is at `now` has not just gone elsewhere.
stays :
    (stage : ℕ → Stage) (i q : ℕ) (next now : Stage)
    → next ≢ now
    → goes_to stage i next q ≡ now
    → (i ≢ q) × (stage q ≡ now)
stays stage i q next now h e = elim (gone stage i q next now e) [
  | inl (_, k) ↦ absurd (h k)
  | inr k ↦ k
]

pick_up-Inv :
    (s : Conn) (i : ℕ)
    → Inv s
    → s.lock ≡ unlocked
    → Inv (record s { stage = goes_to s.stage i taken; lock = by_worker i; work = false })
pick_up-Inv s i v l = record {
  flagged = λ q e. v.flagged q (stays s.stage i q taken running (λ k. cc) e).1;
  alone = λ p q e k.
      v.alone p q (stays s.stage i p taken running (λ k. cc) e).1
        (stays s.stage i q taken running (λ k. cc) k).1;
  locks = λ q e. elim (gone s.stage i q taken taken e) [
    | inl (k, _) ↦ ap by_worker k
    | inr (_, k) ↦ absurd (cc (v.locks q k, l))
  ];
  holds = λ q e. absurd (cc (v.holds q (stays s.stage i q taken tested (λ k. cc) e).1, l));
  unflagged = λ q e. v.unflagged q (stays s.stage i q taken tested (λ k. cc) e).1;
}

by_worker-injective : (i j : ℕ) → by_worker i ≡ by_worker j → i ≡ j
by_worker-injective i j e = cc

-- The one that has the lock gives it back.
skip-Inv :
    (s : Conn) (i : ℕ)
    → Inv s
    → s.stage i ≡ taken
    → Inv (record s { stage = goes_to s.stage i waiting; lock = unlocked })
skip-Inv s i v w = record {
  flagged = λ q e. v.flagged q (stays s.stage i q waiting running (λ k. cc) e).1;
  alone = λ p q e k.
      v.alone p q (stays s.stage i p waiting running (λ k. cc) e).1
        (stays s.stage i q waiting running (λ k. cc) k).1;
  locks = λ q e.
      let (n, k) = stays s.stage i q waiting taken (λ k. cc) e in
      absurd (n (by_worker-injective i q (sym (v.locks i w) ∙ v.locks q k)));
  holds = λ q e.
      let (n, k) = stays s.stage i q waiting tested (λ k. cc) e in
      absurd (n (by_worker-injective i q (sym (v.locks i w) ∙ v.holds q k)));
  unflagged = λ q e. v.unflagged q (stays s.stage i q waiting tested (λ k. cc) e).1;
}

test-Inv :
    (s : Conn) (i : ℕ)
    → Inv s
    → s.stage i ≡ taken
    → s.worker ≡ false
    → Inv (record s { stage = goes_to s.stage i tested })
test-Inv s i v w f = record {
  flagged = λ q e. v.flagged q (stays s.stage i q tested running (λ k. cc) e).1;
  alone = λ p q e k.
      v.alone p q (stays s.stage i p tested running (λ k. cc) e).1
        (stays s.stage i q tested running (λ k. cc) k).1;
  locks = λ q e. v.locks q (stays s.stage i q tested taken (λ k. cc) e).1;
  holds = λ q e. elim (gone s.stage i q tested tested e) [
    | inl (k, _) ↦ v.locks i w ∙ ap by_worker k
    | inr (_, k) ↦ v.holds q k
  ];
  unflagged = λ q e. f;
}

start-Inv :
    (s : Conn) (i : ℕ)
    → Inv s
    → s.stage i ≡ tested
    → Inv (record s { stage = goes_to s.stage i running; worker = true; lock = unlocked })
start-Inv s i v w = record {
  flagged = λ q e. refl;
  alone = λ p q e k. sym (only p e) ∙ only q k;
  locks = λ q e.
      let (n, k) = stays s.stage i q running taken (λ k. cc) e in
      absurd (n (by_worker-injective i q (sym (v.holds i w) ∙ v.locks q k)));
  holds = λ q e.
      let (n, k) = stays s.stage i q running tested (λ k. cc) e in
      absurd (n (by_worker-injective i q (sym (v.holds i w) ∙ v.holds q k)));
  unflagged = λ q e.
      let (n, k) = stays s.stage i q running tested (λ k. cc) e in
      absurd (n (by_worker-injective i q (sym (v.holds i w) ∙ v.holds q k)));
}
  where
    only : (q : ℕ) → goes_to s.stage i running q ≡ running → i ≡ q
    only q e = elim (gone s.stage i q running running e) [
      | inl (k, _) ↦ k
      | inr (_, k) ↦ absurd (cc (v.flagged q k, v.unflagged i w))
    ]

finish-Inv :
    (s : Conn) (i : ℕ)
    → Inv s
    → s.stage i ≡ running
    → s.lock ≡ unlocked
    → Inv (record s { stage = goes_to s.stage i waiting; worker = false })
finish-Inv s i v w l = record {
  flagged = λ q e.
      let (n, k) = stays s.stage i q waiting running (λ k. cc) e in absurd (n (v.alone i q w k));
  alone = λ p q e k.
      v.alone p q (stays s.stage i p waiting running (λ k. cc) e).1
        (stays s.stage i q waiting running (λ k. cc) k).1;
  locks = λ q e. v.locks q (stays s.stage i q waiting taken (λ k. cc) e).1;
  holds = λ q e. v.holds q (stays s.stage i q waiting tested (λ k. cc) e).1;
  unflagged = λ q e. refl;
}

release-Inv :
    (s : Conn) → Inv s → s.lock ≡ unlocked → Inv (record s { phase = released; lock = by_server })
release-Inv s v l = record {
  flagged = v.flagged;
  alone = v.alone;
  locks = λ q e. absurd (cc (v.locks q e, l));
  holds = λ q e. absurd (cc (v.holds q e, l));
  unflagged = v.unflagged;
}

-- What the threads do not look at may change.
same-Inv :
    (s : Conn) (phase : Phase) (work terminate : Bool)
    → Inv s
    → Inv (record s { phase = phase; work = work; terminate = terminate })
same-Inv s phase work terminate v = record {
  flagged = v.flagged;
  alone = v.alone;
  locks = v.locks;
  holds = v.holds;
  unflagged = v.unflagged;
}

no_worker : (a b : Bool) → (a || b) ≡ false → b ≡ false
no_worker a b h = ground (arith, h)

step-Inv : (s t : Conn) → Inv s → Step s t → Inv t
step-Inv s t v (pick_up i w k l) = pick_up-Inv s i v l
step-Inv s t v (skip i w k) = skip-Inv s i v w
step-Inv s t v (test i w k) = test-Inv s i v w (no_worker s.terminate s.worker k)
step-Inv s t v (start i w) = start-Inv s i v w
step-Inv s t v (finish i w l) = finish-Inv s i v w l
step-Inv s t v (hand_over c) = same-Inv s s.phase true s.terminate v
step-Inv s t v ask = same-Inv s s.phase s.work true v
step-Inv s t v (unlist c) = same-Inv s unlisted false s.terminate v
step-Inv s t v (wait c w) = same-Inv s waited s.work s.terminate v
step-Inv s t v (release c l) = release-Inv s v l

ConnReached-Inv : (s : Conn) → ConnReached s → Inv s
ConnReached-Inv s at_first = record {
  flagged = λ i e. absurd (cc e);
  alone = λ i j e k. absurd (cc e);
  locks = λ i e. absurd (cc e);
  holds = λ i e. absurd (cc e);
  unflagged = λ i e. absurd (cc e);
}
ConnReached-Inv s (then r k) = step-Inv _ s (ConnReached-Inv _ r) k

-- In whatever order the workers and the event loop take their steps, no two workers run commands of
-- one connection at a time, and while one does its flag is set.
pub ConnReached-alone :
    (s : Conn)
    → ConnReached s
    → ((i j : ℕ) → s.stage i ≡ running → s.stage j ≡ running → i ≡ j)
      × ((i : ℕ) → s.stage i ≡ running → s.worker ≡ true)
ConnReached-alone s r = let v = ConnReached-Inv s r in (v.alone, v.flagged)
