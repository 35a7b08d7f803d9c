-- ===== src/Query/Planned.antt =====
-- What the model sends and what a row of turns delivers (api/routes_query.py).
use chat_doc.Floats.{Floats}
use chat_doc.Query.Thread.{
  chunk, broken, Arrival, Phase, receiving, checking, yielding, closing, leaving,
}
use chat_doc.Query.Answers.{delivered}
use chat_doc.Query.{client_gone, got_delta, timeout, got_error, got_end, Turn}
use chat_doc.Query.Stream.{closed}
use chat_doc.Prelude.{
  Bool, List, Option, Text, [], ap, false, none, refl, some, true, ◌++◌, ◌>>=◌, ◌∙◌, ◌∷◌, ◌≡◌,
}

-- The text that the model sends, if its stream does not break.
abbrev pub sent : List Arrival → Option Text
sent [] = some []
sent (chunk t ∷ rest) = sent rest >>= (λ u. some (t ++ u))
sent (broken m ∷ rest) = none

module _ (fl : Floats) where
  -- What the thread puts into the queue if nobody stops it.
  abbrev pub planned : List Arrival → List (Turn fl)
  planned [] = got_end ∷ []
  planned (chunk [] ∷ rest) = planned rest
  planned (chunk (c ∷ t) ∷ rest) = got_delta (c ∷ t) ∷ planned rest
  planned (broken m ∷ rest) = got_error m ∷ got_end ∷ []

  pub delivered-planned :
      (arrivals : List Arrival) → delivered fl (planned arrivals) ≡ sent arrivals
  delivered-planned [] = refl
  delivered-planned (chunk [] ∷ rest) = delivered-planned rest ∙ unit (sent rest)
    where
      unit : (o : Option Text) → o ≡ (o >>= (λ u. some ([] ++ u)))
      unit none = refl
      unit (some u) = refl
  delivered-planned (chunk (c ∷ t) ∷ rest) =
      ap (λ o. o >>= (λ (u : Text). some ((c ∷ t) ++ u))) (delivered-planned rest)
  delivered-planned (broken m ∷ rest) = refl

  -- The turns on which something came.
  abbrev pub real : List (Turn fl) → List (Turn fl)
  real [] = []
  real (timeout now ∷ turns) = real turns
  real (client_gone ∷ turns) = client_gone ∷ real turns
  real (got_delta t ∷ turns) = got_delta t ∷ real turns
  real (got_error m ∷ turns) = got_error m ∷ real turns
  real (got_end ∷ turns) = got_end ∷ real turns

  pub delivered-real : (turns : List (Turn fl)) → delivered fl (real turns) ≡ delivered fl turns
  delivered-real [] = refl
  delivered-real (timeout now ∷ turns) = delivered-real turns
  delivered-real (client_gone ∷ turns) = refl
  delivered-real (got_delta t ∷ turns) =
      ap (λ o. o >>= (λ (u : Text). some (t ++ u))) (delivered-real turns)
  delivered-real (got_error m ∷ turns) = refl
  delivered-real (got_end ∷ turns) = refl

  pub real-append : (xs ys : List (Turn fl)) → real (xs ++ ys) ≡ real xs ++ real ys
  real-append [] ys = refl
  real-append (timeout now ∷ xs) ys = real-append xs ys
  real-append (client_gone ∷ xs) ys = ap (λ r. client_gone ∷ r) (real-append xs ys)
  real-append (got_delta t ∷ xs) ys = ap (λ r. got_delta t ∷ r) (real-append xs ys)
  real-append (got_error m ∷ xs) ys = ap (λ r. got_error m ∷ r) (real-append xs ys)
  real-append (got_end ∷ xs) ys = ap (λ r. got_end ∷ r) (real-append xs ys)

  -- Nothing that comes later changes what a closed row of turns has delivered.
  pub delivered-append :
      (xs ys : List (Turn fl)) → closed fl xs ≡ true → delivered fl (xs ++ ys) ≡ delivered fl xs
  delivered-append [] ys h = cc
  delivered-append (timeout now ∷ xs) ys h = delivered-append xs ys h
  delivered-append (client_gone ∷ xs) ys h = cc
  delivered-append (got_delta t ∷ xs) ys h =
      ap (λ o. o >>= (λ (u : Text). some (t ++ u))) (delivered-append xs ys h)
  delivered-append (got_error m ∷ xs) ys h = refl
  delivered-append (got_end ∷ xs) ys h = refl

  abbrev pub ends_it : Turn fl → Bool
  ends_it got_end = true
  ends_it (got_error m) = true
  ends_it t = false

  pub closed-append :
      (xs : List (Turn fl)) (u : Turn fl)
      → closed fl xs ≡ false
      → ends_it u ≡ false
      → closed fl (xs ++ u ∷ []) ≡ false
  closed-append [] client_gone h e = refl
  closed-append [] (timeout now) h e = refl
  closed-append [] (got_delta t) h e = refl
  closed-append [] (got_error m) h e = cc
  closed-append [] got_end h e = cc
  closed-append (timeout now ∷ xs) u h e = closed-append xs u h e
  closed-append (client_gone ∷ xs) u h e = refl
  closed-append (got_delta t ∷ xs) u h e = closed-append xs u h e
  closed-append (got_error m ∷ xs) u h e = cc
  closed-append (got_end ∷ xs) u h e = cc

  -- What the thread has still to hand over if nobody stops it.
  abbrev pub pending : Phase fl → List Arrival → List (Turn fl)
  pending receiving arrivals = planned arrivals
  pending (checking text) arrivals = planned (chunk text ∷ arrivals)
  pending (yielding text) arrivals = got_delta text ∷ planned arrivals
  pending (closing items) arrivals = items ++ got_end ∷ []
  pending (leaving items) arrivals = items

  pub real-planned : (all : List Arrival) → real (planned all) ≡ planned all
  real-planned [] = refl
  real-planned (chunk [] ∷ rest) = real-planned rest
  real-planned (chunk (c ∷ t) ∷ rest) = ap (λ r. got_delta (c ∷ t) ∷ r) (real-planned rest)
  real-planned (broken m ∷ rest) = refl
