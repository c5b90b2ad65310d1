-- ===== src/Bolt/Sessions.antt =====
-- Sessions and API tokens in BoltDB (db/bolt/session.go, db/Session.go, db/APIToken.go, db/Store.go).
pub mod Expired
use contribute_semaphore.Base.{Bool, true, false, Option, none, some, List, [], ◌∷◌, map}
use contribute_semaphore.Base.Tests.{if◌then◌else◌}
use contribute_semaphore.Base.Int.{ℤ, pos}
use contribute_semaphore.Base.Text.{Text, text, text_eq}
use contribute_semaphore.Bolt.Database.{Bbolt, Codec}
use contribute_semaphore.Bolt.Object.{
  Object, int_object_id, str_object_id, Value, int_value, string_value, other_value,
}
use contribute_semaphore.Bolt.Objects.{get_object, update_object_tx, create_object}
use contribute_semaphore.Bolt.Props.{ObjectProps}
use contribute_semaphore.Bolt.Query.{delete_object, get_objects}
use contribute_semaphore.Model.Store.{Result, ok, all_rows, ◌>>=◌}

abbrev pub session_tags : List Text
session_tags =
    map text ("id" ∷ "user_id" ∷ "created" ∷ "last_active" ∷ "ip" ∷ "user_agent" ∷ "expired" ∷ [])

abbrev pub api_token_tags : List Text
api_token_tags = map text ("id" ∷ "created" ∷ "expired" ∷ "user_id" ∷ [])

abbrev pub props_of : Text → List Text → Bool → ObjectProps
props_of name tags is_global = record {
  table_name = name;
  type = tags;
  is_global = is_global;
  primary_column_name = text "id";
  referring_column_suffix = [];
  sortable_columns = [];
  sort_inverted = false;
}

abbrev pub session_props : ObjectProps
session_props = props_of (text "session") session_tags false

abbrev pub token_props : ObjectProps
token_props = props_of (text "user__token") api_token_tags false

abbrev pub global_token_tags : List Text
global_token_tags = map text ("id" ∷ "user_id" ∷ [])

abbrev pub global_token_object : ObjectProps
global_token_object = props_of (text "token") global_token_tags true

-- A field of a struct, by its tag.
abbrev pub field : Text → Object → Option Value
field tag [] = none
field tag ((t, v) ∷ o) = let rest = field tag o in if text_eq t tag then some v else rest

abbrev pub with_field : Text → Value → Object → Object
with_field tag v [] = []
with_field tag v ((t, w) ∷ o) = (t, (if text_eq t tag then v else w)) ∷ with_field tag v o

abbrev pub int_of : Option Value → ℤ
int_of (some (int_value i)) = i
int_of _ = pos 0

abbrev pub true_value : Value
true_value = other_value (text "true")

module _ {D : Type 0} (b : Bbolt D) (codec : Codec) where
  -- The user of a token is looked up in the bucket of all tokens, and the token in that of the user.
  unfoldable pub get_api_token : Text → D → Result Object
  get_api_token token_id d =
      get_object b codec (pos 0 ∷ []) global_token_object (str_object_id token_id) d >>= λ t.
      get_object b codec (int_of (field (text "user_id") t) ∷ []) token_props
        (str_object_id token_id) d

  -- Two transactions: what the first has written stays when the second fails.
  unfoldable pub create_api_token : ℤ → Object → D → Result (Object × D)
  create_api_token user_id token d =
      create_object b codec (user_id ∷ []) token_props token d >>= λ p.
      create_object b codec (pos 0 ∷ []) global_token_object
        ((text "id", (elim (field (text "id") token) [ none ↦ string_value [] | some v ↦ v ]))
          ∷ (text "user_id", int_value user_id)
          ∷ [])
        p.1
      >>= λ q. ok (p.0, q.1)

  unfoldable pub expire_api_token : ℤ → Text → D → Result D
  expire_api_token user_id token_id d =
      get_object b codec (user_id ∷ []) token_props (str_object_id token_id) d >>= λ token.
      update_object_tx b codec (user_id ∷ []) token_props
        (with_field (text "expired") true_value token) d

  -- Two transactions here, too; the token stays in the bucket of all tokens.
  unfoldable pub delete_api_token : ℤ → Text → D → Result D
  delete_api_token user_id token_id d = expire_api_token user_id token_id d >>= λ d'.
      delete_object codec b (user_id ∷ []) token_props (str_object_id token_id) d' d'

  unfoldable pub get_api_tokens : ℤ → D → Result (List Object)
  get_api_tokens user_id d = get_objects codec b (user_id ∷ []) token_props all_rows (λ o. true) d

  unfoldable pub create_session : ℤ → Object → D → Result (Object × D)
  create_session user_id session d = create_object b codec (user_id ∷ []) session_props session d

  unfoldable pub get_session : ℤ → ℤ → D → Result Object
  get_session user_id session_id d =
      get_object b codec (user_id ∷ []) session_props (int_object_id session_id) d

  unfoldable pub expire_session : ℤ → ℤ → D → Result D
  expire_session user_id session_id d = get_session user_id session_id d >>= λ session.
      update_object_tx b codec (user_id ∷ []) session_props
        (with_field (text "expired") true_value session) d

  -- `now` is the value of the clock.
  unfoldable pub touch_session : Value → ℤ → ℤ → D → Result D
  touch_session now user_id session_id d = get_session user_id session_id d >>= λ session.
      update_object_tx b codec (user_id ∷ []) session_props
        (with_field (text "last_active") now session) d
