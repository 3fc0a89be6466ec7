-- ===== src/Reconcile/Hoare.antt =====
-- A program logic of the reconcilers' effect: what holds of the log before and after a computation,
-- by the way it ends.
pub mod Success
use strimzi_backup_operator.Base.{
  ◌≡◌, refl, Bool, true, false, none, some, List, ◌∷◌, String, if◌then◌else◌, Option, subst, sym,
}
use strimzi_backup_operator.Error.{Error, KubeError, Result, ok, err, panic}
use strimzi_backup_operator.Reconcile.Server.{
  Write, Action, World, Op, ◌>>=◌, after, lift, asks, done, reporting, reported, ignoring, send_or,
  outcome, create_job, delete_object,
}

abbrev pub Pred : Type 1
Pred = List Write → Type 0

module _ {A : Type 0} where
  -- What holds of an end: one predicate if it is an answer, the other if it is an error or a panic.
  abbrev pub Ends : (A → Pred) → Pred → Result A × List Write → Type 0
  Ends post fail (ok a, log) = post a log
  Ends post fail (err e, log) = fail log
  Ends post fail (panic, log) = fail log

  pub record Hoare (before : Pred) (m : Op A) (post : A → Pred) (fail : Pred) : Type 0 where
    pub ends : (log : List Write) → before log → Ends post fail (m log)

-- The invariant is kept however the computation ends.
abbrev pub Keeps : {A : Type 0} → Pred → Op A → Type 0
Keeps I m = Hoare I m (λ _. I) I

module _ {A B : Type 0} where
  after-Ends :
      (mid : A → Pred) (post : B → Pred) (fail : Pred) (s : Result A × List Write) (f : A → Op B)
      → Ends mid fail s
      → ((a : A) → Hoare (mid a) (f a) post fail)
      → Ends post fail (after s f)
  after-Ends mid post fail (ok a, log) f h g = (g a).ends log h
  after-Ends mid post fail (err e, log) f h g = h
  after-Ends mid post fail (panic, log) f h g = h

  -- The rule of a sequence.
  pub Hoare->>= :
      (before : Pred) (mid : A → Pred) (post : B → Pred) (fail : Pred) (m : Op A) (f : A → Op B)
      → Hoare before m mid fail
      → ((a : A) → Hoare (mid a) (f a) post fail)
      → Hoare before (m >>= f) post fail
  unfolding ◌>>=◌
  Hoare->>= before mid post fail m f h g = record {
    ends = λ log b. after-Ends mid post fail (m log) f (h.ends log b) g;
  }

module _ {A : Type 0} (I : Pred) where
  lift-Ends : (r : Result A) (log : List Write) → I log → Ends (λ a l. (r ≡ ok a) × I l) I (r, log)
  lift-Ends (ok a) log i = (refl, i)
  lift-Ends (err e) log i = i
  lift-Ends panic log i = i

  -- What is computed without the cluster is known after it.
  pub Hoare-lift : (r : Result A) → Hoare I (lift r) (λ a log. (r ≡ ok a) × I log) I
  unfolding lift
  Hoare-lift r = record { ends = λ log i. lift-Ends r log i }

  -- What is read is read in the cluster as it was after some writes.
  pub Hoare-asks :
      (f : List Write → A) → Hoare I (asks f) (λ a log. ((at : List Write) × (f at ≡ a)) × I log) I
  unfolding asks
  Hoare-asks f = record { ends = λ log i. ((log, refl), i) }

  reads-Ends : (r : Result A) (log : List Write) → I log → Ends (λ _. I) I (r, log)
  reads-Ends (ok a) log i = i
  reads-Ends (err e) log i = i
  reads-Ends panic log i = i

  -- What is read may be an error.
  pub Keeps-reads : (f : List Write → Result A) → Keeps I (λ log. lift (f log) log)
  unfolding lift
  Keeps-reads f = record { ends = λ log i. reads-Ends (f log) log i }

  pub Keeps-if : (b : Bool) (m k : Op A) → Keeps I m → Keeps I k → Keeps I (if b then m else k)
  Keeps-if true m k h g = h
  Keeps-if false m k h g = g

module _ {A B : Type 0} (I : Pred) where
  pub Keeps->>= :
      (m : Op A) (f : A → Op B) → Keeps I m → ((a : A) → Keeps I (f a)) → Keeps I (m >>= f)
  Keeps->>= m f h g = Hoare->>= I (λ _. I) (λ _. I) I m f h g

  -- What is read or computed first leaves the invariant as it was.
  pub Hoare-first :
      (post : B → Pred) (fail : Pred) (K : A → Type 0) (m : Op A) (f : A → Op B)
      → Hoare I m (λ a log. K a × I log) fail
      → ((a : A) → Hoare I (f a) post fail)
      → Hoare I (m >>= f) post fail
  Hoare-first post fail K m f h g =
      Hoare->>= I (λ a log. K a × I log) post fail m f h
        λ a. record { ends = λ log (k, i). (g a).ends log i }

  -- A sequence whose continuation keeps the invariant if some fact holds of what it is given.
  pub Keeps-knowing :
      (K : A → Type 0) (m : Op A) (f : A → Op B)
      → Hoare I m (λ a log. K a × I log) I
      → ((a : A) → K a → Keeps I (f a))
      → Keeps I (m >>= f)
  Keeps-knowing K m f h g =
      Hoare->>= I (λ a log. K a × I log) (λ _. I) I m f h
        λ a. record { ends = λ log (k, i). (g a k).ends log i }

  pub Keeps-asks :
      (r : List Write → A) (f : A → Op B)
      → ((at : List Write) → Keeps I (f (r at)))
      → Keeps I (asks r >>= f)
  Keeps-asks r f g =
      Keeps-knowing (λ a. (at : List Write) × (r at ≡ a)) (asks r) f (Hoare-asks I r)
        λ a (at, e). subst (λ x. Keeps I (f x)) e (g at)

  pub Keeps-lift :
      (r : Result A) (f : A → Op B) → ((a : A) → r ≡ ok a → Keeps I (f a)) → Keeps I (lift r >>= f)
  Keeps-lift r f g = Keeps-knowing (λ a. r ≡ ok a) (lift r) f (Hoare-lift I r) g

outcome-Ends :
    (post fail : Pred) (f : KubeError → Error) (o : Option KubeError) (log : List Write)
    → (o ≡ none → post log)
    → fail log
    → Ends (λ _. post) fail (outcome f o, log)
outcome-Ends post fail f none log h g = h refl
outcome-Ends post fail f (some e) log h g = g

-- A write is accepted, or it fails; it is in the log either way.
pub Hoare-send :
    (before post fail : Pred) (f : KubeError → Error) (w : World) (namespace : String) (a : Action)
    → ((log : List Write)
        → before log
        → w.answer log (record { namespace = namespace; action = a }) ≡ none
        → post (record { namespace = namespace; action = a } ∷ log))
    → ((log : List Write) → before log → fail (record { namespace = namespace; action = a } ∷ log))
    → Hoare before (send_or f w namespace a) (λ _. post) fail
unfolding send_or
Hoare-send before post fail f w namespace a h g = record {
  ends = λ log b.
      let write : Write = record { namespace = namespace; action = a } in
      outcome-Ends post fail f (w.answer log write) (write ∷ log) (h log b) (g log b);
}

module _ (I : Pred) where
  pub Keeps-done : Keeps I done
  unfolding done lift
  Keeps-done = record { ends = λ log i. i }

  -- A write keeps what holds with it.
  pub Keeps-send :
      (f : KubeError → Error) (w : World) (namespace : String) (a : Action)
      → ((log : List Write) → I log → I (record { namespace = namespace; action = a } ∷ log))
      → Keeps I (send_or f w namespace a)
  Keeps-send f w namespace a h = Hoare-send I I I f w namespace a (λ log i _. h log i) h

  ignoring-Ends :
      (s : Result (Unit {0}) × List Write) → Ends (λ _. I) I s → Ends (λ _. I) I (ignoring s)
  ignoring-Ends (ok _, log) h = h
  ignoring-Ends (err _, log) h = h
  ignoring-Ends (panic, log) h = h

  pub Keeps-ignoring : (m : Op (Unit {0})) → Keeps I m → Keeps I (λ log. ignoring (m log))
  Keeps-ignoring m h = record { ends = λ log i. ignoring-Ends (m log) (h.ends log i) }

  Keeps-reported :
      {A : Type 0} (r : Result A) (f : Error → Op (Unit {0}))
      → ((e : Error) → Keeps I (f e))
      → Keeps I (reported r f)
  unfolding reported lift
  Keeps-reported (ok a) f h = record { ends = λ log i. i }
  Keeps-reported (err e) f h = Keeps->>= I (f e) _ (h e) (λ _. record { ends = λ log i. i })
  Keeps-reported panic f h = record { ends = λ log i. i }

  pub Keeps-reporting :
      {A : Type 0} (r : List Write → Result A) (f : Error → Op (Unit {0}))
      → ((e : Error) → Keeps I (f e))
      → Keeps I (reporting r f)
  unfolding reporting
  Keeps-reporting r f h = record { ends = λ log i. (Keeps-reported (r log) f h).ends log i }

weak-Ends :
    {A : Type 0} (post later : A → Pred) (fail last : Pred) (s : Result A × List Write)
    → ((a : A) (log : List Write) → post a log → later a log)
    → ((log : List Write) → fail log → last log)
    → Ends post fail s
    → Ends later last s
weak-Ends post later fail last (ok a, log) h g e = h a log e
weak-Ends post later fail last (err x, log) h g e = g log e
weak-Ends post later fail last (panic, log) h g e = g log e

-- The rule of consequence.
pub Hoare-weaken :
    {A : Type 0} (before : Pred) (m : Op A) (post later : A → Pred) (fail last : Pred)
    → ((a : A) (log : List Write) → post a log → later a log)
    → ((log : List Write) → fail log → last log)
    → Hoare before m post fail
    → Hoare before m later last
Hoare-weaken before m post later fail last h g e = record {
  ends = λ log b. weak-Ends post later fail last (m log) h g (e.ends log b);
}

kept-Ends : {A : Type 0} (I : Pred) (s : Result A × List Write) → Ends (λ _. I) I s → I s.1
kept-Ends I (ok a, log) h = h
kept-Ends I (err e, log) h = h
kept-Ends I (panic, log) h = h

-- What is kept holds of the log in the end.
pub kept : {A : Type 0} (I : Pred) (m : Op A) (log : List Write) → Keeps I m → I log → I (m log).1
kept I m log h i = kept-Ends I (m log) (h.ends log i)

-- A write that creates no Job and deletes no object.
abbrev pub is_quiet : Action → Bool
is_quiet (create_job _) = false
is_quiet (delete_object _) = false
is_quiet _ = true

-- The invariant holds after any quiet write.
abbrev pub IsClosed : Pred → Type 0
IsClosed I =
    (log : List Write) (namespace : String) (a : Action)
    → is_quiet a ≡ true
    → I log
    → I (record { namespace = namespace; action = a } ∷ log)
