-- ===== src/Refresh/Untouched/Assets.antt =====
-- The import of a new asset leaves the batch transfers as they are.
use rgb_lib.Prelude.{String, Option, none, some, List, [], ◌∷◌}
use rgb_lib.Status.{AssetSchema}
use rgb_lib.Database.Rows.{DbAssetTransfer}
use rgb_lib.Services.{Services, ValidConsignment}
use rgb_lib.Refresh.Hub.{WalletKind}
use rgb_lib.Refresh.Receiving.{ReceiveMode, proxy, out_of_band}
use rgb_lib.Refresh.Media.{
  cleanup_media_files, hash_files, provided_map, check_media, read_path, fetch_media,
  save_attachments, fetch_and_save_attachments,
}
use rgb_lib.Refresh.Validation.{import_asset, connect_asset}
use rgb_lib.Refresh.Quiet.{
  Quiet, calls, tables, >>-Quiet, >>=-Quiet, pure-Quiet, map_or-Quiet, request-Quiet, ask-Quiet,
  if-Quiet,
}

module _ {S : Type 0} (env : Services S) where
  cleanup_media_files-Quiet : (l : List String) → Quiet (cleanup_media_files env l)
  unfolding cleanup_media_files
  cleanup_media_files-Quiet [] = search calls
  cleanup_media_files-Quiet (d ∷ ds) = >>-Quiet (request-Quiet _) (cleanup_media_files-Quiet ds)

  hash_files-Quiet : (l : List String) (m : List (String × String)) → Quiet (hash_files env l m)
  unfolding hash_files
  hash_files-Quiet [] m = search calls
  hash_files-Quiet (p ∷ ps) m = >>=-Quiet (request-Quiet _) (λ bytes. hash_files-Quiet ps _)

  provided_map-Quiet : (mode : ReceiveMode) → Quiet (provided_map env mode)
  provided_map-Quiet (proxy url) = search calls
  provided_map-Quiet (out_of_band l) = hash_files-Quiet l []

  check_media-Quiet : (digest : String) (o : Option String) → Quiet (check_media env digest o)
  check_media-Quiet digest none = search calls
  check_media-Quiet digest (some media) = search calls

  read_path-Quiet : (o : Option String) → Quiet (read_path env o)
  read_path-Quiet none = search calls
  read_path-Quiet (some p) = search calls

  fetch_media-Quiet :
      (mode : ReceiveMode) (provided : List (String × String)) (digest : String)
      → Quiet (fetch_media env mode provided digest)
  unfolding fetch_media
  fetch_media-Quiet (proxy url) provided digest = search (calls, check_media-Quiet)
  fetch_media-Quiet (out_of_band l) provided digest = search (calls, read_path-Quiet)

  save_attachments-Quiet :
      (mode : ReceiveMode) (provided : List (String × String)) (ds saved : List String)
      → Quiet (save_attachments env mode provided ds saved)
  unfolding save_attachments
  save_attachments-Quiet mode provided [] saved = search calls
  save_attachments-Quiet mode provided (d ∷ ds) saved = >>=-Quiet (ask-Quiet _) (λ present.
      if-Quiet present (save_attachments-Quiet mode provided ds saved) (
        >>=-Quiet (fetch_media-Quiet mode provided d) (λ content.
          map_or-Quiet content (>>-Quiet (cleanup_media_files-Quiet saved) (pure-Quiet _))
            (λ bytes. >>-Quiet (request-Quiet _) (save_attachments-Quiet mode provided ds _)))))

  fetch_and_save_attachments-Quiet :
      (l : List String) (mode : ReceiveMode) → Quiet (fetch_and_save_attachments env l mode)
  unfolding fetch_and_save_attachments
  fetch_and_save_attachments-Quiet l mode =
      search (calls, provided_map-Quiet, save_attachments-Quiet)

  module _ (kind : WalletKind) (schemas : List AssetSchema) where
    import_asset-Quiet :
        (mode : ReceiveMode) (s : AssetSchema) (c : ValidConsignment)
        → Quiet (import_asset env kind schemas mode s c)
    unfolding import_asset
    import_asset-Quiet mode s c = search (calls, tables, fetch_and_save_attachments-Quiet) depth 15

    pub connect_asset-Quiet :
        (a : DbAssetTransfer) (mode : ReceiveMode) (s : AssetSchema) (c : ValidConsignment)
        → Quiet (connect_asset env kind schemas a mode s c)
    unfolding connect_asset
    connect_asset-Quiet a mode s c = search (calls, tables, import_asset-Quiet) depth 9
