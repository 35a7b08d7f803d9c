-- ===== src/GeminiClient.antt =====
-- eval/gemini_client.py: the calls of the SDK, which are parameters, and what becomes of their
-- results and errors.
use text.Mathlib.Text.{◌==◌ as str_eq}
use chat_doc.Floats.{Floats}
use chat_doc.Gate.{text_of, or_else}
use chat_doc.Prelude.{List, Option, String, Text, find, if◌then◌else◌, none, some, ℕ, ◌==◌, ◌>>=◌}

-- The headers of an error's response, or none where there is no response.
abbrev pub Headers : Type 0
Headers = Option (List (String × Text))

-- How a call of the SDK ends.
pub data SdkResult (R : Type 0) : Type 0 where
  responded : R → SdkResult R
  client_error : ℕ → Headers → SdkResult R
  server_error : Headers → SdkResult R
  other_error : SdkResult R

abbrev pub header : String → List (String × Text) → Option Text
header name headers = find (λ h. str_eq h.0 name) headers >>= (λ h. some h.1)

module _ (fl : Floats) where
  open fl use {F}

  -- The two spellings; an absent header, an empty text or one that is no number gives none.
  unfoldable pub retry_after_from : Headers → Option F
  retry_after_from none = none
  retry_after_from (some headers) =
      or_else (header "Retry-After" headers) (header "retry-after" headers)
      >>= (λ raw. fl.parse raw)

  -- `_retry_after_from(e) or 5.0`
  unfoldable pub server_retry_after : Headers → F
  unfolding retry_after_from
  server_retry_after headers = elim (retry_after_from headers) [
    | none ↦ fl.literal 5 0
    | some v ↦ if fl.eq v (fl.literal 0 0) then fl.literal 5 0 else v
  ]

  -- A result, RateLimited with its time, or the exception as it was.
  pub data Outcome (R : Type 0) : Type 0 where
    result : R → Outcome R
    rate_limited : Option F → Outcome R
    raised : Outcome R

  unfoldable pub translated : {R : Type 0} → SdkResult R → Outcome R
  unfolding retry_after_from server_retry_after
  translated (responded r) = result r
  translated (client_error status headers) =
      if status == 429 then rate_limited (retry_after_from headers) else raised
  translated (server_error headers) = rate_limited (some (server_retry_after headers))
  translated other_error = raised

  -- A response: its text, the parsed answer that the SDK made of it, and its usage.
  pub record Response (A : Type 0) : Type 0 where
    pub text : Option Text
    pub parsed : Option A
    pub prompt_tokens : Option ℕ
    pub completion_tokens : Option ℕ

  pub record Generated (A : Type 0) : Type 0 where
    pub text : Text
    pub parsed : A
    pub prompt_tokens : Option ℕ
    pub completion_tokens : Option ℕ

  abbrev pub generated : {A B : Type 0} → Response A → B → Generated B
  generated r parsed = record {
    text = text_of r.text;
    parsed = parsed;
    prompt_tokens = r.prompt_tokens;
    completion_tokens = r.completion_tokens;
  }

  abbrev pub map_outcome : {A B : Type 0} → (A → Outcome B) → Outcome A → Outcome B
  map_outcome f (result r) = f r
  map_outcome f (rate_limited s) = rate_limited s
  map_outcome f raised = raised

  unfoldable pub generate : {A : Type 0} → SdkResult (Response A) → Outcome (Generated (Unit {0}))
  unfolding translated
  generate sent = map_outcome (λ r. result (generated r tt)) (translated sent)

  -- The answer that the SDK has parsed, or else the text parsed against the schema; `parse` gives
  -- none for an exception.
  unfoldable pub generate_structured :
      {A : Type 0} → (Option Text → Option A) → SdkResult (Response A) → Outcome (Generated A)
  unfolding translated
  generate_structured parse sent =
      map_outcome
        (λ r. elim r.parsed [
          | some a ↦ result (generated r a)
          | none ↦ elim (parse r.text) [ none ↦ raised | some a ↦ result (generated r a) ]
        ])
        (translated sent)
