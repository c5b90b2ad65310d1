-- ===== src/Examples/Files.antt =====
-- The theorems on db/bolt, at the database file in memory.
use contribute_semaphore.Base.{ℕ, ◌≡◌, refl, true, false, some, List, [], ◌∷◌}
use contribute_semaphore.Base.Tests.{if◌then◌else◌}
use contribute_semaphore.Base.Decimal.{padded, itoa}
use contribute_semaphore.Base.Int.{pos}
use contribute_semaphore.Base.Text.{Text, text, text_eq}
use contribute_semaphore.Bolt.Connections.{BoltDb}
use contribute_semaphore.Bolt.Object.{
  Object, int_object_id, to_bytes, padded_int, int_value, pointer_value, field_by_tag_suffix,
  has_suffix, set_field,
}
use contribute_semaphore.Bolt.Objects.{
  make_bucket_id, bucket_ids, get_object, create_object, object_id, new_id, id_of_field,
}
use contribute_semaphore.Bolt.Paging.{take_rows-page}
use contribute_semaphore.Bolt.Props.{ObjectProps, access_key_props}
use contribute_semaphore.Bolt.Query.{
  take_rows, delete_object, refuse_use, is_object_in_use, get_objects, unmarshal_objects,
  is_object_referred_by, referred_id,
}
use contribute_semaphore.Bolt.Reading.{Created, get_object-create}
use contribute_semaphore.Bolt.Deleted.{NoneHolds, delete_access_key-unused}
use contribute_semaphore.Model.Store.{ok, err, not_found, RetrieveQueryParams}
use contribute_semaphore.Examples.Store.{
  File, file_store, file_laws, find_entry, cut_entry, rows_in, codec, codec_laws, encode, decode,
}

abbrev team_props : ObjectProps
team_props = record {
  table_name = text "project__user";
  type = text "id" ∷ text "user_id" ∷ [];
  is_global = false;
  primary_column_name = text "id";
  referring_column_suffix = text "team_id";
  sortable_columns = [];
  sort_inverted = false;
}

abbrev member : ℕ → Object
member id = (text "id", int_value (pos id)) ∷ (text "user_id", int_value (pos 9)) ∷ []

abbrev bucket_name : Text
bucket_name = text "project__user_0000000001"

-- One object, whose ID is 4.
abbrev file : File
file = record {
  buckets = bucket_name ∷ [];
  entries = (bucket_name, text "0000000004", 4 ∷ 9 ∷ []) ∷ [];
  counter = 4;
}

abbrev written : File
written = record file { entries = (bucket_name, text "0000000004", 4 ∷ 9 ∷ []) ∷ file.entries }

abbrev grown : File
grown = record {
  buckets = bucket_name ∷ file.buckets;
  entries = (bucket_name, text "0000000005", 5 ∷ 9 ∷ []) ∷ file.entries;
  counter = 5;
}

get_object-create_example :
    Created file_store codec file_laws codec_laws (pos 1 ∷ []) team_props (member 5) grown
unfolding create_object make_bucket_id bucket_ids padded_int padded itoa text_eq find_entry to_bytes
    field_by_tag_suffix has_suffix encode object_id new_id id_of_field set_field
get_object-create_example =
    get_object-create file_store codec file_laws codec_laws (pos 1 ∷ []) team_props (member 0)
      (member 5) file grown refl refl

abbrev key_bucket : Text
key_bucket = text "access_key_0000000001"

-- A repository whose key is the key 3.
abbrev repository : Object
repository =
    (text "id", int_value (pos 5))
    ∷ (text "name", int_value (pos 0))
    ∷ (text "project_id", int_value (pos 1))
    ∷ (text "git_url", int_value (pos 0))
    ∷ (text "git_branch", int_value (pos 0))
    ∷ (text "ssh_key_id", int_value (pos 3))
    ∷ []

abbrev repository_entry : Text × Text × Text
repository_entry =
    (text "project__repository_0000000001", text "0000000005", 5 ∷ 0 ∷ 1 ∷ 0 ∷ 0 ∷ 3 ∷ [])

-- The key 4, and the repository.
abbrev keys_file : File
keys_file = record {
  buckets = key_bucket ∷ text "project__repository_0000000001" ∷ [];
  entries = (key_bucket, text "0000000004", 4 ∷ []) ∷ repository_entry ∷ [];
  counter = 4;
}

abbrev deleted_file : File
deleted_file = record keys_file { entries = repository_entry ∷ [] }

abbrev tables : ObjectProps → List Object
tables u = if text_eq u.table_name (text "project__repository") then repository ∷ [] else []

delete_access_key-unused_example :
    NoneHolds file_store codec (text "vault_key_id") (pointer_value (some (pos 4))) []
    × NoneHolds file_store codec (text "ssh_key_id") (pointer_value (some (pos 4))) []
    × NoneHolds file_store codec (text "ssh_key_id") (int_value (pos 4)) (repository ∷ [])
    × (get_object file_store codec
          (pos 1 ∷ [])
          access_key_props
          (int_object_id (pos 4))
          deleted_file
        ≡ err not_found)
unfolding delete_object refuse_use is_object_in_use get_objects unmarshal_objects take_rows
    is_object_referred_by referred_id field_by_tag_suffix has_suffix make_bucket_id bucket_ids
    padded_int padded itoa text_eq to_bytes rows_in cut_entry decode
delete_access_key-unused_example =
    delete_access_key-unused file_store codec file_laws (pos 1) (pos 4) tables keys_file keys_file
      deleted_file (λ e. cc e) (tt, (tt, (tt, ((refl, tt), tt)))) (tt, tt, (refl, tt)) refl

abbrev second_page : RetrieveQueryParams
second_page = record { offset = 1; count = 1; sort_by = []; sort_inverted = false }

abbrev rows : List (Text × Text)
rows =
    (text "1", 1 ∷ 9 ∷ [])
    ∷ (text "2", 2 ∷ 9 ∷ [])
    ∷ (text "3", 3 ∷ 9 ∷ [])
    ∷ (text "4", 4 ∷ 9 ∷ [])
    ∷ []

take_rows-page_example :
    take_rows codec team_props.type second_page (λ o. true) 0 0 rows ≡ ok (member 2 ∷ member 3 ∷ [])
unfolding decode
take_rows-page_example =
    take_rows-page codec team_props.type second_page (λ o. true) rows
      (member 1 ∷ member 2 ∷ member 3 ∷ member 4 ∷ []) (refl, (refl, (refl, (refl, tt))))

abbrev one_connection : BoltDb
one_connection = record { connections = text "main" ∷ []; file_open = true }
