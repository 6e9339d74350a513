-- ===== src/Refresh/Download.antt =====
-- How a consignment comes: `get_consignment` and `wait_consignment` of src/wallet/online.rs.
use rgb_lib.Prelude.{ℕ, String, List, [], ◌∷◌, Option, none, some, find, if◌then◌else◌}
use rgb_lib.Status.{AssetSchema}
use rgb_lib.Database.Rows.{DbAssetTransfer, DbBatchTransfer, DbTransfer, DbData}
use rgb_lib.Database.Joins.{get_incoming_transfer}
use rgb_lib.Database.Updates.{
  get_transfer_transport_endpoints_data, update_transfer_transport_endpoint,
}
use rgb_lib.Action.{
  Action, map_or, DbTransferEndpoint, pure, ◌>>=◌, ◌>>◌, ask, request, unwrap, lift,
}
use rgb_lib.Services.{Services, ConsignmentReply, ConsignmentMeta}
use rgb_lib.Refresh.Hub.{WalletKind}
use rgb_lib.Refresh.Receiving.{proxy, refuse_consignment}
use rgb_lib.Refresh.Checks.{uses_out_of_band_exchange}
use rgb_lib.Refresh.Validation.{validate_received_consignment}

-- a consignment that is in its file: the proxy, the TXID and the output that the sender names
pub record Download : Type 0 where
  pub proxy_url : String
  pub txid : String
  pub vout : Option ℕ

abbrev pub used_endpoint : List DbTransferEndpoint → Option DbTransferEndpoint
used_endpoint = find (λ (e : DbTransferEndpoint). e.used)

-- the consignment of an attempt before, which needs its files and the endpoint
abbrev pub cached_download : Option DbTransferEndpoint → Option ConsignmentMeta → Option Download
cached_download none meta = none
cached_download (some e) none = none
cached_download (some e) (some meta) =
    some (record { proxy_url = e.endpoint; txid = meta.txid; vout = meta.vout })

module _ {S : Type 0} (env : Services S) (kind : WalletKind)
    (supported_schemas : List AssetSchema) where
  -- `none` for `NoConsignment`
  abbrev pub flatten : Option (Option ConsignmentReply) → Option ConsignmentReply
  flatten none = none
  flatten (some r) = r

  unfoldable pub get_consignment : String → String → Action S (Option ConsignmentReply)
  get_consignment url recipient_id = do
    request (env.proxy_client url)
    reply ← ask (env.get_consignment url recipient_id)
    pure (flatten reply)

  -- the first endpoint that has a consignment
  unfoldable pub try_endpoints :
      String → List DbTransferEndpoint → Action S (Option (ConsignmentReply × String))
  try_endpoints recipient_id [] = pure none
  try_endpoints recipient_id (e ∷ es) = do
    reply ← get_consignment e.endpoint recipient_id
    map_or reply (try_endpoints recipient_id es)
        (λ r. update_transfer_transport_endpoint e.idx >> pure (some (r, e.endpoint)))

  abbrev pub validate_download :
      DbBatchTransfer
      → DbAssetTransfer
      → DbTransfer
      → String
      → Download
      → Action S (Option DbBatchTransfer)
  validate_download b asset_transfer transfer recipient_id d =
      validate_received_consignment env kind supported_schemas b asset_transfer transfer
        recipient_id d.txid d.vout (proxy d.proxy_url)

  unfoldable pub save_download :
      DbBatchTransfer
      → DbAssetTransfer
      → DbTransfer
      → String
      → ConsignmentReply × String
      → Action S (Option DbBatchTransfer)
  save_download b asset_transfer transfer recipient_id (r, url) =
      map_or (env.decode_base64 r.consignment)
        (refuse_consignment env kind b none (proxy url) recipient_id)
        (λ bytes. do
          request (env.write_consignment recipient_id bytes)
          request
              (env.write_consignment_meta recipient_id (record { txid = r.txid; vout = r.vout }))
          validate_download b asset_transfer transfer recipient_id
              (record { proxy_url = url; txid = r.txid; vout = r.vout }))

  unfoldable pub download :
      DbBatchTransfer
      → DbAssetTransfer
      → DbTransfer
      → String
      → List DbTransferEndpoint
      → Action S (Option DbBatchTransfer)
  download b asset_transfer transfer recipient_id tte_data = do
    found ← try_endpoints recipient_id tte_data
    map_or found (pure none) (save_download b asset_transfer transfer recipient_id)

  unfoldable pub wait_consignment : DbBatchTransfer → DbData → Action S (Option DbBatchTransfer)
  wait_consignment b d = do
    (asset_transfer, transfer) ← lift (get_incoming_transfer b d.asset_transfers d.transfers)
    recipient_id ← unwrap transfer.recipient_id
    if uses_out_of_band_exchange env kind supported_schemas transfer then pure none else do
      tte_data ← get_transfer_transport_endpoints_data transfer.idx
      meta ← ask (env.read_consignment_meta recipient_id)
      map_or (cached_download (used_endpoint tte_data) meta)
          (download b asset_transfer transfer recipient_id tte_data)
          (validate_download b asset_transfer transfer recipient_id)
