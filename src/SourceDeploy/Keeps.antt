-- ===== src/SourceDeploy/Keeps.antt =====
-- Invariants of a run, kept by a step whether it goes on or returns early.
use fleetdeck.Prelude.{
  Bool, true, false, Option, none, some, List, [], ◌∷◌, String, Outcome, ok, err,
}
use fleetdeck.Prelude.Dict.{Dict}
use fleetdeck.SourceDeploy.Types.{
  tagged, ServiceModel, Model, Event, History, ApplyError, Run, M, ◌>>>◌, pure, fail, continue,
  answer, ask, require, note, perform, lift, check_that, branch,
}
use fleetdeck.SourceDeploy.Runtime.{
  resolve, Containers, quiesce, save_runtime, halt, stop_writers, stop_any, tag_image, tag_line,
  tag_images,
}

module _ (P : Run → Type 0) where
  -- The step keeps the invariant.
  pub record Keeps {A : Type 0} (m : M A) : Type 0 where
    pub kept : (r : Run) → P r → P (m r).1

  module _ {A B : Type 0} where
    continue-Keeps :
        (x : Outcome ApplyError A × Run) (k : A → M B)
        → P x.1
        → ((a : A) → Keeps (k a))
        → P (continue k x).1
    continue-Keeps (ok a, r) k p h = (h a).kept r p
    continue-Keeps (err e, r) k p h = p

    pub bind-Keeps : {m : M A} {k : A → M B} → Keeps m → ((a : A) → Keeps (k a)) → Keeps (m >>> k)
    unfolding ◌>>>◌
    bind-Keeps {m} {k} first rest = record {
      kept = λ r p. continue-Keeps (m r) k (first.kept r p) rest;
    }

  pub pure-Keeps : {A : Type 0} (a : A) → Keeps (pure a)
  unfolding pure
  pure-Keeps a = record { kept = λ r p. p }

  pub fail-Keeps : {A : Type 0} (e : ApplyError) → Keeps (fail {A = A} e)
  unfolding fail
  fail-Keeps e = record { kept = λ r p. p }

  pub answer-Keeps : {A : Type 0} (a : Option A) (e : ApplyError) → Keeps (answer a e)
  unfolding answer
  answer-Keeps none e = record { kept = λ r p. p }
  answer-Keeps (some a) e = record { kept = λ r p. p }

  pub ask-Keeps : {A : Type 0} (f : History → Option A) (e : ApplyError) → Keeps (ask f e)
  unfolding ask
  ask-Keeps f e = record { kept = λ r p. (answer-Keeps (f r.history) e).kept r p }

  pub check_that-Keeps : (b : Bool) (e : ApplyError) → Keeps (check_that b e)
  unfolding check_that
  check_that-Keeps true e = record { kept = λ r p. p }
  check_that-Keeps false e = record { kept = λ r p. p }

  pub require-Keeps : (f : History → Bool) (e : ApplyError) → Keeps (require f e)
  unfolding require
  require-Keeps f e = record { kept = λ r p. (check_that-Keeps (f r.history) e).kept r p }

  pub lift-Keeps : {A : Type 0} (o : Outcome ApplyError A) → Keeps (lift o)
  unfolding lift
  lift-Keeps (ok a) = record { kept = λ r p. p }
  lift-Keeps (err e) = record { kept = λ r p. p }

  pub perform-Keeps :
      (f : History → Bool) (v : Event) (e : ApplyError) → Keeps (note v) → Keeps (perform f v e)
  unfolding perform
  perform-Keeps f v e h = bind-Keeps (require-Keeps f e) (λ _. h)

  pub branch-Keeps : {A : Type 0} (b : Bool) (m n : M A) → Keeps m → Keeps n → Keeps (branch b m n)
  unfolding branch
  branch-Keeps true m n h k = h
  branch-Keeps false m n h k = k

  pub ruleset keeping = (
    bind-Keeps, pure-Keeps, fail-Keeps, answer-Keeps, ask-Keeps, check_that-Keeps, require-Keeps,
    lift-Keeps, perform-Keeps, branch-Keeps,
  )

  pub resolve-Keeps :
      (name : String) (config : History → Option (Option Model)) → Keeps (resolve name config)
  unfolding resolve
  resolve-Keeps name config = search keeping depth 12

  module _ (database_kind : ServiceModel → Option String) (docker : Containers) where
    stop_any-Keeps :
        (names : List String)
        → ((ns : List String) → Keeps (halt database_kind docker ns))
        → Keeps (stop_any database_kind docker names)
    unfolding stop_any stop_writers
    stop_any-Keeps names h = search (keeping, h) depth 12

    pub quiesce-Keeps :
        (m : Model)
        → ((ns : List String) → Keeps (halt database_kind docker ns))
        → Keeps (quiesce database_kind docker m)
    unfolding quiesce
    quiesce-Keeps m h = search (keeping, stop_any-Keeps, h) depth 12

    tag_line-Keeps :
        (line : List String) (previous : Dict String)
        → ((service : String) → Keeps (note (tagged service)))
        → Keeps (tag_line database_kind docker line previous)
    unfolding tag_line tag_image
    tag_line-Keeps (image ∷ service ∷ []) previous h = search (keeping, h) depth 12
    tag_line-Keeps (image ∷ service ∷ more ∷ rest) previous h = search keeping
    tag_line-Keeps (image ∷ []) previous h = search keeping
    tag_line-Keeps [] previous h = search keeping

    tag_images-Keeps :
        (lines : List (List String)) (previous : Dict String)
        → ((service : String) → Keeps (note (tagged service)))
        → Keeps (tag_images database_kind docker lines previous)
    unfolding tag_images
    tag_images-Keeps [] previous h = search keeping
    tag_images-Keeps (line ∷ lines) previous h =
        bind-Keeps (tag_line-Keeps line previous h) (λ extended. tag_images-Keeps lines extended h)

    pub save_runtime-Keeps :
        ((service : String) → Keeps (note (tagged service)))
        → Keeps (save_runtime database_kind docker)
    unfolding save_runtime
    save_runtime-Keeps h = search (keeping, tag_images-Keeps, h) depth 12
