-- ===== src/Events/Redact.antt =====
-- `_redact` of app/services/event_repository.py. `key.lower()` is compared with five ASCII words
-- only, so it is exact to fold A-Z and the Kelvin sign, whose lower case is `k`.
pub mod Hidden
use fastapi_langgraph_templa.Common.{
  ℕ, ◌+◌, String, Bool, true, false, ◌&&◌, ◌||◌, ◌==◌, leb, if◌then◌else◌, List, [], ◌∷◌, map, any,
}
use Prim.Native.Char.{code}
use fastapi_langgraph_templa.Json.{
  Json, Items, Fields, null, bool, num, text, arr, obj, nil, cons, end, field,
}

-- the code points of a text
abbrev pub codes : String → List ℕ
codes String.[] = []
codes (String.◌∷◌ c s) = code c ∷ codes s

unfoldable pub lower_code : ℕ → ℕ
lower_code c = if leb b'A' c && leb c b'Z' then c + 32 else if c == 0x212a then b'k' else c

unfoldable pub same_codes : List ℕ → List ℕ → Bool
same_codes [] [] = true
same_codes (a ∷ as') (b ∷ bs) = (a == b) && same_codes as' bs
same_codes _ _ = false

abbrev pub sensitive_words : List String
sensitive_words = "api_key" ∷ "authorization" ∷ "password" ∷ "secret" ∷ "token" ∷ []

unfoldable pub is_sensitive : String → Bool
unfolding lower_code same_codes
is_sensitive key =
    any (λ word. same_codes (map lower_code (codes key)) (codes word)) sensitive_words

unfoldable mutual
  pub redact : Json → Json
  redact null = null
  redact (bool b) = bool b
  redact (num n) = num n
  redact (text s) = text s
  redact (arr xs) = arr (redact_items xs)
  redact (obj fs) = obj (redact_fields fs)

  pub redact_items : Items → Items
  redact_items nil = nil
  redact_items (cons x xs) = cons (redact x) (redact_items xs)

  pub redact_fields : Fields → Fields
  redact_fields end = end
  redact_fields (field key item fs) =
      field key (if is_sensitive key then text "***" else redact item) (redact_fields fs)
