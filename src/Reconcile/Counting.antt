-- ===== src/Reconcile/Counting.antt =====
-- Bounds on the writes of a computation: how many of a kind it attempts, whatever the cluster
-- answers.
use strimzi_backup_operator.Base.{
  ℕ, ◌+◌, ◌≤◌, ◌≡◌, refl, Bool, true, false, List, length, retain, arith, String, if◌then◌else◌,
}
use strimzi_backup_operator.Error.{Error, KubeError, Result, ok, err, panic}
use strimzi_backup_operator.Reconcile.Server.{
  Write, Action, World, Op, ◌>>=◌, after, lift, asks, done, reporting, reported, ignoring, send_or,
}

abbrev pub count : (Action → Bool) → List Write → ℕ
count p log = length (retain (λ x. p x.action) log)

-- The computation attempts at most `n` writes that pass the test.
pub record AtMost {A : Type 0} (p : Action → Bool) (n : ℕ) (m : Op A) : Type 0 where
  pub at_most : (log : List Write) → count p (m log).1 ≤ n + count p log

module _ {A B : Type 0} (p : Action → Bool) where
  AtMost-after :
      (n : ℕ) (s : Result A × List Write) (f : A → Op B)
      → ((a : A) → AtMost p n (f a))
      → count p (after s f).1 ≤ n + count p s.1
  AtMost-after n (ok a, log) f h = (h a).at_most log
  AtMost-after n (err e, log) f h = omega arith
  AtMost-after n (panic, log) f h = omega arith

  -- The bounds of the parts of a sequence add up.
  pub AtMost->>= :
      (n k : ℕ) (m : Op A) (f : A → Op B)
      → AtMost p n m
      → ((a : A) → AtMost p k (f a))
      → AtMost p (n + k) (m >>= f)
  unfolding ◌>>=◌
  AtMost->>= n k m f h g = record {
    at_most = λ log. omega (arith, h.at_most log, AtMost-after k (m log) f g);
  }

  -- A part that has none of them adds nothing.
  pub AtMost-before :
      (n : ℕ) (m : Op A) (f : A → Op B)
      → AtMost p 0 m
      → ((a : A) → AtMost p n (f a))
      → AtMost p n (m >>= f)
  AtMost-before n m f h g = record {
    at_most = λ log. omega (arith, (AtMost->>= 0 n m f h g).at_most log);
  }

  pub AtMost-then :
      (n : ℕ) (m : Op A) (f : A → Op B)
      → AtMost p n m
      → ((a : A) → AtMost p 0 (f a))
      → AtMost p n (m >>= f)
  AtMost-then n m f h g = record {
    at_most = λ log. omega (arith, (AtMost->>= n 0 m f h g).at_most log);
  }

  -- Reading, and computing without the cluster, add nothing.
  pub AtMost-lift :
      (k : ℕ) (r : Result A) (f : A → Op B)
      → ((a : A) → AtMost p k (f a))
      → AtMost p k (lift r >>= f)
  unfolding ◌>>=◌ lift
  AtMost-lift k r f g = record { at_most = λ log. omega (arith, AtMost-after k (r, log) f g) }

  pub AtMost-asks :
      (k : ℕ) (r : List Write → A) (f : A → Op B)
      → ((a : A) → AtMost p k (f a))
      → AtMost p k (asks r >>= f)
  unfolding ◌>>=◌ asks
  AtMost-asks k r f g = record { at_most = λ log. omega (arith, (g (r log)).at_most log) }

log-ignoring :
    (p : Action → Bool) (s : Result (Unit {0}) × List Write) → count p (ignoring s).1 ≡ count p s.1
log-ignoring p (ok _, log) = refl
log-ignoring p (err _, log) = refl
log-ignoring p (panic, log) = refl

log-after_lift :
    {A B : Type 0} (p : Action → Bool) (s : Result A × List Write) (r : Result B)
    → count p (after s (λ _ log. (r, log))).1 ≡ count p s.1
log-after_lift p (ok _, log) r = refl
log-after_lift p (err _, log) r = refl
log-after_lift p (panic, log) r = refl

module _ (p : Action → Bool) where
  pub AtMost-done : (n : ℕ) → AtMost p n done
  unfolding done
  AtMost-done n = record { at_most = λ log. omega arith }

  pub AtMost-if :
      {A : Type 0} (n : ℕ) (b : Bool) (m k : Op A)
      → AtMost p n m
      → AtMost p n k
      → AtMost p n (if b then m else k)
  AtMost-if n true m k h g = h
  AtMost-if n false m k h g = g

  -- A write counts if it passes the test.
  pub AtMost-send :
      (f : KubeError → Error) (w : World) (namespace : String) (a : Action)
      → AtMost p 1 (send_or f w namespace a)
  unfolding send_or
  AtMost-send f w namespace a = record { at_most = λ log. ground arith }

  pub AtMost-send_other :
      (f : KubeError → Error) (w : World) (namespace : String) (a : Action)
      → p a ≡ false
      → AtMost p 0 (send_or f w namespace a)
  unfolding send_or
  AtMost-send_other f w namespace a h = record { at_most = λ log. ground (arith, h) }

  pub AtMost-ignoring :
      (n : ℕ) (m : Op (Unit {0})) → AtMost p n m → AtMost p n (λ log. ignoring (m log))
  AtMost-ignoring n m h = record {
    at_most = λ log. omega (arith, h.at_most log, log-ignoring p (m log));
  }

  AtMost-reported :
      {A : Type 0} (n : ℕ) (r : Result A) (f : Error → Op (Unit {0}))
      → ((e : Error) → AtMost p n (f e))
      → AtMost p n (reported r f)
  unfolding reported lift ◌>>=◌
  AtMost-reported n (ok a) f h = record { at_most = λ log. omega arith }
  AtMost-reported n (err e) f h = record {
    at_most = λ log. omega (arith, (h e).at_most log, log-after_lift p (f e log) (err e));
  }
  AtMost-reported n panic f h = record { at_most = λ log. omega arith }

  pub AtMost-reporting :
      {A : Type 0} (n : ℕ) (r : List Write → Result A) (f : Error → Op (Unit {0}))
      → ((e : Error) → AtMost p n (f e))
      → AtMost p n (reporting r f)
  unfolding reporting
  AtMost-reporting n r f h = record { at_most = λ log. (AtMost-reported n (r log) f h).at_most log }

  pub AtMost-weaken : {A : Type 0} (n k : ℕ) (m : Op A) → n ≤ k → AtMost p n m → AtMost p k m
  AtMost-weaken n k m h g = record { at_most = λ log. omega (arith, g.at_most log) }
