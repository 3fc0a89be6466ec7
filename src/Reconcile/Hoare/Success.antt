-- ===== src/Reconcile/Hoare/Success.antt =====
-- Total correctness in the program logic: computations that succeed.
use strimzi_backup_operator.Base.{
  ◌≡◌, refl, Bool, true, false, none, List, ◌∷◌, String, if◌then◌else◌, subst, sym,
}
use strimzi_backup_operator.Error.{Error, KubeError, Result, ok, err, panic}
use strimzi_backup_operator.Reconcile.Server.{
  Write, Action, World, Op, ◌>>=◌, after, lift, asks, done, reporting, reported, send_or, outcome,
}
use strimzi_backup_operator.Reconcile.Hoare.{Pred, Ends, Hoare}

-- The computation succeeds.
abbrev pub Succeeds : {A : Type 0} → Pred → Op A → (A → Pred) → Type 0
Succeeds before m post = Hoare before m post (λ _. ⊥)

success :
    {A : Type 0} (post : A → Pred) (s : Result A × List Write)
    → Ends post (λ _. ⊥) s
    → (a : A) × (s.0 ≡ ok a) × post a s.1
success post (ok a, log) h = (a, refl, h)
success post (err e, log) h = absurd h
success post (panic, log) h = absurd h

module _ {A B : Type 0} (before : Pred) (post : B → Pred) where
  pub Succeeds-lift :
      (r : Result A) (f : A → Op B) (a : A)
      → r ≡ ok a
      → Succeeds before (f a) post
      → Succeeds before (lift r >>= f) post
  unfolding ◌>>=◌ lift
  Succeeds-lift r f a e h = record {
    ends = λ log b. subst (λ x. Ends post (λ _. ⊥) (after (x, log) f)) (sym e) (h.ends log b);
  }

  pub Succeeds-asks :
      (r : List Write → A) (f : A → Op B)
      → ((at : List Write) → Succeeds before (f (r at)) post)
      → Succeeds before (asks r >>= f) post
  unfolding ◌>>=◌ asks
  Succeeds-asks r f h = record { ends = λ log b. (h log).ends log b }

  pub Succeeds-reporting :
      (r : List Write → Result A) (report : Error → Op (Unit {0})) (f : A → Op B) (a : A)
      → ((log : List Write) → r log ≡ ok a)
      → Succeeds before (f a) post
      → Succeeds before (reporting r report >>= f) post
  unfolding ◌>>=◌ reporting reported lift
  Succeeds-reporting r report f a e h = record {
    ends = λ log b.
        subst (λ x. Ends post (λ _. ⊥) (after (reported x report log) f)) (sym (e log))
          (h.ends log b);
  }

-- Where the cluster accepts every write, a write succeeds.
pub Succeeds-send :
    (before post : Pred) (f : KubeError → Error) (w : World) (namespace : String) (a : Action)
    → ((log : List Write) (write : Write) → w.answer log write ≡ none)
    → ((log : List Write) → before log → post (record { namespace = namespace; action = a } ∷ log))
    → Succeeds before (send_or f w namespace a) (λ _. post)
unfolding send_or
Succeeds-send before post f w namespace a accepts h = record {
  ends = λ log b.
      let write : Write = record { namespace = namespace; action = a } in
      subst (λ o. Ends (λ _. post) (λ _. ⊥) (outcome f o, write ∷ log)) (sym (accepts log write))
        (h log b);
}

-- A computation that succeeds has a result, and what it promises holds of the log.
pub Succeeds-result :
    {A : Type 0} (before : Pred) (m : Op A) (post : A → Pred) (log : List Write)
    → Succeeds before m post
    → before log
    → (a : A) × ((m log).0 ≡ ok a) × post a (m log).1
Succeeds-result before m post log h b = success post (m log) (h.ends log b)

pub Succeeds-done : (before : Pred) → Succeeds before done (λ _. before)
unfolding done lift
Succeeds-done before = record { ends = λ log b. b }

pub Succeeds-if :
    {A : Type 0} (before : Pred) (post : A → Pred) (b : Bool) (m k : Op A)
    → Succeeds before m post
    → Succeeds before k post
    → Succeeds before (if b then m else k) post
Succeeds-if before post true m k h g = h
Succeeds-if before post false m k h g = g
