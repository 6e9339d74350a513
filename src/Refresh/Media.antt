-- ===== src/Refresh/Media.antt =====
-- The media files of a new asset: `extract_attachments`, `fetch_and_save_attachments` and
-- `cleanup_media_files` of src/wallet/online.rs. An attachment is its digest, an association list
-- stands for the map of the provided files.
use rgb_lib.Prelude.{
  String, Bool, true, false, List, [], ◌∷◌, ◌++◌, Option, none, some, str_eq, if◌then◌else◌,
}
use rgb_lib.Status.{AssetSchema, uda}
use rgb_lib.Result.{internal}
use rgb_lib.Action.{Action, map_or, pure, raise, ◌>>=◌, ◌>>◌, ask, request}
use rgb_lib.Services.{Services, ValidConsignment}
use rgb_lib.Refresh.Receiving.{ReceiveMode, proxy, out_of_band}

abbrev pub option_list {ℓ} : {A : Type ℓ} → Option A → List A
option_list none = []
option_list (some a) = a ∷ []

abbrev pub extract_attachments : AssetSchema → ValidConsignment → List String
extract_attachments uda c =
    option_list c.terms_media ++ (option_list c.token_media ++ c.token_attachments)
extract_attachments _ c = option_list c.terms_media

abbrev pub insert_path : String → String → List (String × String) → List (String × String)
insert_path digest path [] = (digest, path) ∷ []
insert_path digest path ((d, p) ∷ m) =
    if str_eq d digest then (digest, path) ∷ m else (d, p) ∷ insert_path digest path m

abbrev pub get_path : String → List (String × String) → Option String
get_path digest [] = none
get_path digest ((d, p) ∷ m) = if str_eq d digest then some p else get_path digest m

module _ {S : Type 0} (env : Services S) where
  unfoldable pub cleanup_media_files : List String → Action S (Unit {0})
  cleanup_media_files [] = pure tt
  cleanup_media_files (d ∷ ds) = do request (env.remove_media d); cleanup_media_files ds

  unfoldable pub hash_files :
      List String → List (String × String) → Action S (List (String × String))
  hash_files [] m = pure m
  hash_files (path ∷ paths) m = do
    bytes ← request (env.read_file path)
    hash_files paths (insert_path (env.hash_bytes_hex bytes) path m)

  -- the files that are provided, by their digests
  abbrev pub provided_map : ReceiveMode → Action S (List (String × String))
  provided_map (out_of_band media_file_paths) = hash_files media_file_paths []
  provided_map (proxy _) = pure []

  -- what the proxy sent, if it is the file that the contract names
  abbrev pub check_media : String → Option String → Action S (Option String)
  check_media digest none = pure none
  check_media digest (some media) =
      map_or (env.decode_base64 media) (raise internal)
        (λ bytes. pure (if str_eq digest (env.hash_bytes_hex bytes) then some bytes else none))

  abbrev pub read_path : Option String → Action S (Option String)
  read_path none = pure none
  read_path (some path) = do bytes ← request (env.read_file path); pure (some bytes)

  -- the content of a file, `none` where it is refused
  unfoldable pub fetch_media :
      ReceiveMode → List (String × String) → String → Action S (Option String)
  fetch_media (proxy url) provided digest = do
    request (env.proxy_client url)
    media ← request (env.get_media url digest)
    check_media digest media
  fetch_media (out_of_band _) provided digest = read_path (get_path digest provided)

  -- `saved` are the digests of the files written so far
  unfoldable pub save_attachments :
      ReceiveMode → List (String × String) → List String → List String → Action S Bool
  save_attachments mode provided [] saved = pure true
  save_attachments mode provided (digest ∷ ds) saved = do
    present ← ask (env.media_exists digest)
    if present then save_attachments mode provided ds saved else do
      content ← fetch_media mode provided digest
      map_or content (cleanup_media_files saved >> pure false) (λ bytes. do
        request (env.write_media digest bytes)
        save_attachments mode provided ds (saved ++ digest ∷ []))

  unfoldable pub fetch_and_save_attachments : List String → ReceiveMode → Action S Bool
  fetch_and_save_attachments attachments mode = do
    provided ← provided_map mode
    save_attachments mode provided attachments []
