-- ===== src/Config/Database.antt =====
-- The database that is configured, and the string that it is opened with (util/config.go).
use contribute_semaphore.Base.{
  ◌≡◌, refl, subst, Bool, true, not, ◌||◌, List, [], ◌∷◌, ◌++◌, inl, inr, arith,
}
use contribute_semaphore.Base.Tests.{if◌then◌else◌, Bool-cases}
use contribute_semaphore.Base.Text.{Text, text, text_eq}
use contribute_semaphore.Model.Store.{Result, ok, err, failure, ◌>>=◌, bind-eq-ok}

pub record DbConfig : Type 0 where
  pub dialect : Text
  pub hostname : Text
  pub username : Text
  pub password : Text
  pub db_name : Text
  pub options : List (Text × Text)

-- The fields of ConfigType that name databases.
pub record DbConfigs : Type 0 where
  pub mysql : DbConfig
  pub bolt_db : DbConfig
  pub postgres : DbConfig
  pub dialect : Text

abbrev pub mysql_driver : Text
mysql_driver = text "mysql"

abbrev pub bolt_driver : Text
bolt_driver = text "bolt"

abbrev pub postgres_driver : Text
postgres_driver = text "postgres"

-- mapToQueryString, in the order of the map.
unfoldable pub join_options : Text → List (Text × Text) → Text
join_options str [] = str
join_options str ((option, value) ∷ m) =
    join_options ((if text_eq str [] then str else str ++ text "&") ++ (option ++ (b'=' ∷ value))) m

unfoldable pub map_to_query_string : List (Text × Text) → Text
unfolding join_options
map_to_query_string m = let str = join_options [] m in if text_eq str [] then str else b'?' ∷ str

-- A later option takes the place of an earlier one.
unfoldable pub set_option : Text → Text → List (Text × Text) → List (Text × Text)
set_option k v [] = (k, v) ∷ []
set_option k v ((j, w) ∷ m) =
    let rest = set_option k v m in if text_eq j k then (j, v) ∷ m else (j, w) ∷ rest

unfoldable pub set_options : List (Text × Text) → List (Text × Text) → List (Text × Text)
unfolding set_option
set_options [] m = m
set_options ((k, v) ∷ os) m = set_options os (set_option k v m)

-- `getenv` is os.Getenv.
module _ (getenv : Text → Text) where
  abbrev or_env : Text → Text → Text
  or_env key value = if text_eq (getenv key) [] then value else getenv key

  unfoldable pub get_db_name : DbConfig → Text
  get_db_name c = or_env (text "SEMAPHORE_DB_NAME") c.db_name

  unfoldable pub get_username : DbConfig → Text
  get_username c = or_env (text "SEMAPHORE_DB_USER") c.username

  unfoldable pub get_password : DbConfig → Text
  get_password c = or_env (text "SEMAPHORE_DB_PASS") c.password

  unfoldable pub get_hostname : DbConfig → Text
  get_hostname c = or_env (text "SEMAPHORE_DB_HOST") c.hostname

  unfoldable pub is_present : DbConfig → Bool
  unfolding get_hostname
  is_present c = not (text_eq (get_hostname c) [])

  unfoldable pub get_dialect : DbConfigs → Result Text
  unfolding is_present
  get_dialect c =
      if text_eq c.dialect []
      then (if is_present c.mysql
          then ok mysql_driver
          else if is_present c.bolt_db
          then ok bolt_driver
          else if is_present c.postgres
          then ok postgres_driver
          else err (failure (text "database configuration not found")))
      else ok c.dialect

  abbrev pub of_dialect : DbConfigs → Text → Result DbConfig
  of_dialect c dialect =
      if text_eq dialect bolt_driver
      then ok (record c.bolt_db { dialect = dialect })
      else if text_eq dialect postgres_driver
      then ok (record c.postgres { dialect = dialect })
      else if text_eq dialect mysql_driver
      then ok (record c.mysql { dialect = dialect })
      else err (failure (text "database configuration not found"))

  unfoldable pub get_db_config : DbConfigs → Result DbConfig
  unfolding get_dialect
  get_db_config c = get_dialect c >>= of_dialect c

  -- `escape` is url.QueryEscape.
  unfoldable pub get_connection_string : (Text → Text) → Bool → DbConfig → Result Text
  unfolding get_db_name get_username get_password get_hostname map_to_query_string set_options
  get_connection_string escape include_db_name c =
      let name = if include_db_name then get_db_name c else [] in
      let login = get_username c ++ (b':' ∷ get_password c) in
      if text_eq c.dialect bolt_driver
      then ok (get_hostname c)
      else if text_eq c.dialect mysql_driver
      then ok (
          login
          ++ (text "@tcp("
              ++ (get_hostname c
                  ++ (text ")/"
                      ++ (name
                          ++ map_to_query_string (
                              set_options c.options (
                                (text "parseTime", text "true")
                                ∷ (text "interpolateParams", text "true")
                                ∷ [])))))))
      else if text_eq c.dialect postgres_driver
      then ok (
          text "postgres://"
          ++ (get_username c
              ++ (b':' ∷ escape (get_password c)
                  ++ (b'@' ∷ get_hostname c
                      ++ ((if include_db_name then b'/' ∷ get_db_name c else [])
                          ++ map_to_query_string c.options)))))
      else err (failure (text "unsupported database driver: " ++ c.dialect))

  abbrev known : Text → Bool
  known t = text_eq t bolt_driver || (text_eq t mysql_driver || text_eq t postgres_driver)

  known-opens :
      (escape : Text → Text) (b : Bool) (d : DbConfig)
      → known d.dialect ≡ true
      → (s : Text) × (get_connection_string escape b d ≡ ok s)
  unfolding get_connection_string
  known-opens escape b d k = go (get_connection_string escape b d) refl
    where
      go :
          (r : Result Text)
          → get_connection_string escape b d ≡ r
          → (s : Text) × (get_connection_string escape b d ≡ ok s)
      go (ok s) e = (s, e)
      go (err x) e = absurd (ground (arith, k))

  of_dialect-known :
      (c : DbConfigs) (dialect : Text) (d : DbConfig)
      → of_dialect c dialect ≡ ok d
      → known d.dialect ≡ true
  of_dialect-known c dialect d h = elim (Bool-cases (text_eq dialect bolt_driver)) [
    | inl bolt ↦
        let e : record c.bolt_db { dialect = dialect } ≡ d = ground arith in
        subst (λ z. known z.dialect ≡ true) e (ground arith)
    | inr nb ↦ elim (Bool-cases (text_eq dialect postgres_driver)) [
      | inl pg ↦
          let e : record c.postgres { dialect = dialect } ≡ d = ground arith in
          subst (λ z. known z.dialect ≡ true) e (ground arith)
      | inr np ↦ elim (Bool-cases (text_eq dialect mysql_driver)) [
        | inl my ↦
            let e : record c.mysql { dialect = dialect } ≡ d = ground arith in
            subst (λ z. known z.dialect ≡ true) e (ground arith)
        | inr nm ↦ absurd (ground arith)
      ]
    ]
  ]

  -- The configuration that is found has a connection string.
  pub get_db_config-opens :
      (escape : Text → Text) (c : DbConfigs) (d : DbConfig) (b : Bool)
      → get_db_config c ≡ ok d
      → (s : Text) × (get_connection_string escape b d ≡ ok s)
  unfolding get_db_config
  get_db_config-opens escape c d b h =
      bind-eq-ok ((s : Text) × (get_connection_string escape b d ≡ ok s)) (get_dialect c)
        (of_dialect c) {b = d}
        (λ dialect e f. known-opens escape b d (of_dialect-known c dialect d f)) h
