-- ===== src/Refresh/Untouched/Incoming.antt =====
-- The parts of a receive that leave the batch transfers as they are: all but its last step.
use rgb_lib.Prelude.{ℕ, String, Bool, false, Option, none, some, List, [], ◌∷◌}
use rgb_lib.Status.{AssetSchema}
use rgb_lib.Assignment.{Assignment}
use rgb_lib.Database.Rows.{
  DbBatchTransfer, DbTransfer, DbData, DbAssetTransfer, RecipientTypeFull, blind, witness,
}
use rgb_lib.Action.{Action, DbTransferEndpoint}
use rgb_lib.Services.{
  Services, Consignment, ValidConsignment, PostReply, posted, cannot_change_ack, post_failed,
  Validation, valid, invalid, resolver_error,
}
use rgb_lib.Refresh.Hub.{WalletKind}
use rgb_lib.Refresh.Receiving.{
  ReceiveMode, proxy, out_of_band, post_reply, post_ack, safe_height, at_height, all_safe,
  history_is_safe, receive_mode, settle_witness, update_supply, accept_consignment,
}
use rgb_lib.Refresh.Assignments.{Received}
use rgb_lib.Refresh.Checks.{
  matcher_of, receive_matcher, load_received, validated, find_receiving, check_rejects,
  passes_reject_list, check_received, ◌>>?◌,
}
use rgb_lib.Refresh.Validation.{receiving_txo, set_colorings}
use rgb_lib.Refresh.Download.{get_consignment, try_endpoints}
use rgb_lib.Refresh.Quiet.{
  Quiet, calls, tables, >>-Quiet, >>=-Quiet, pure-Quiet, map_or-Quiet, request-Quiet, if-Quiet,
}
use rgb_lib.Refresh.Untouched.{sync_wallet-Quiet}

module _ {S : Type 0} (env : Services S) (kind : WalletKind) where
  post_reply-Quiet : (r : PostReply) → Quiet (post_reply env kind r)
  post_reply-Quiet posted = search calls
  post_reply-Quiet cannot_change_ack = search calls
  post_reply-Quiet (post_failed e) = search calls

  pub post_ack-Quiet :
      (mode : ReceiveMode) (r : String) (a : Bool) → Quiet (post_ack env kind mode r a)
  unfolding post_ack
  post_ack-Quiet (proxy url) r a = search (calls, post_reply-Quiet)
  post_ack-Quiet (out_of_band l) r a = search calls

  pub safe_height-Quiet : (n : ℕ) → Quiet (safe_height env kind n)
  unfolding safe_height
  safe_height-Quiet n = search calls

  at_height-Quiet :
      (safe : ℕ) (o : Option ℕ) {m : Action S Bool} → Quiet m → Quiet (at_height env kind safe o m)
  at_height-Quiet safe none qm = search calls
  at_height-Quiet safe (some h) qm = if-Quiet _ (pure-Quiet false) qm

  all_safe-Quiet : (safe : ℕ) (l : List String) → Quiet (all_safe env kind safe l)
  unfolding all_safe
  all_safe-Quiet safe [] = search calls
  all_safe-Quiet safe (t ∷ ts) =
      >>=-Quiet (request-Quiet _) (λ h. at_height-Quiet safe h (all_safe-Quiet safe ts))

  pub history_is_safe-Quiet : (n : ℕ) (l : List String) → Quiet (history_is_safe env kind n l)
  unfolding history_is_safe
  history_is_safe-Quiet n [] = search calls
  history_is_safe-Quiet n (t ∷ ts) = search (calls, safe_height-Quiet, all_safe-Quiet)

  pub receive_mode-Quiet : (l : List DbTransferEndpoint) → Quiet (receive_mode env kind l)
  unfolding receive_mode
  receive_mode-Quiet l = search calls

  settle_witness-Quiet :
      (skip : Bool) (txid : String) (o : Option RecipientTypeFull)
      → Quiet (settle_witness env kind skip txid o)
  unfolding settle_witness
  settle_witness-Quiet skip txid none = search calls
  settle_witness-Quiet skip txid (some (blind u)) = search calls
  settle_witness-Quiet skip txid (some (witness v)) =
      search (calls, tables, sync_wallet-Quiet) depth 9

  update_supply-Quiet :
      (c : ValidConsignment) (a : DbAssetTransfer) (s : AssetSchema)
      → Quiet (update_supply env kind c a s)
  unfolding update_supply
  update_supply-Quiet c a s = search (calls, tables) depth 12

  pub accept_consignment-Quiet :
      (skip : Bool) (txid : String) (b : DbBatchTransfer) (d : DbData)
      → Quiet (accept_consignment env kind skip txid b d)
  unfolding accept_consignment
  accept_consignment-Quiet skip txid b d =
      search (calls, settle_witness-Quiet, update_supply-Quiet) depth 12

  module _ (schemas : List AssetSchema) where
    pub >>?-Quiet :
        {A B : Type 0} {m : Action S (Option A)} {f : A → Action S (Option B)}
        → Quiet m
        → ((a : A) → Quiet (f a))
        → Quiet (◌>>?◌ env kind schemas m f)
    >>?-Quiet qm qf = >>=-Quiet qm (λ o. map_or-Quiet o (pure-Quiet none) qf)

    matcher_of-Quiet :
        (r : String) (t : RecipientTypeFull) → Quiet (matcher_of env kind schemas r t)
    matcher_of-Quiet r (blind u) = search calls
    matcher_of-Quiet r (witness v) = search calls

    receive_matcher-Quiet : (t : DbTransfer) → Quiet (receive_matcher env kind schemas t)
    unfolding receive_matcher
    receive_matcher-Quiet t = search (calls, matcher_of-Quiet)

    load_received-Quiet :
        (a : DbAssetTransfer) (r txid : String) → Quiet (load_received env kind schemas a r txid)
    unfolding load_received
    load_received-Quiet a r txid = search (calls, >>?-Quiet) depth 7

    validated-Quiet : (v : Validation) → Quiet (validated env kind schemas v)
    validated-Quiet (valid c) = search calls
    validated-Quiet invalid = search calls
    validated-Quiet resolver_error = search calls

    find_receiving-Quiet :
        (t : DbTransfer) (txid : String) (v : Option ℕ) (c : Consignment)
        → Quiet (find_receiving env kind schemas t txid v c)
    unfolding find_receiving
    find_receiving-Quiet t txid v c = search (calls, >>?-Quiet, receive_matcher-Quiet) depth 7

    check_rejects-Quiet :
        (o : Option String) (c : ValidConsignment) (r : Received)
        → Quiet (check_rejects env kind schemas o c r)
    unfolding check_rejects
    check_rejects-Quiet none c r = search calls
    check_rejects-Quiet (some url) c r = search calls

    passes_reject_list-Quiet :
        (s : AssetSchema) (c : ValidConsignment) (r : Received)
        → Quiet (passes_reject_list env kind schemas s c r)
    unfolding passes_reject_list
    passes_reject_list-Quiet s c r = search (calls, tables, check_rejects-Quiet)

    pub check_received-Quiet :
        (b : DbBatchTransfer) (a : DbAssetTransfer) (t : DbTransfer) (r txid : String)
        (v : Option ℕ)
        → Quiet (check_received env kind schemas b a t r txid v)
    unfolding check_received
    check_received-Quiet b a t r txid v =
        search
          (
            calls, >>?-Quiet, load_received-Quiet, safe_height-Quiet, validated-Quiet,
            find_receiving-Quiet, passes_reject_list-Quiet,
          )
          depth 12

    pub set_colorings-Quiet :
        (i j : ℕ) (l : List Assignment) → Quiet (set_colorings env kind schemas i j l)
    unfolding set_colorings
    set_colorings-Quiet i j [] = search calls
    set_colorings-Quiet i j (a ∷ as') = >>-Quiet (search tables) (set_colorings-Quiet i j as')

    pub receiving_txo-Quiet :
        (t : DbTransfer) (txid : String) (v : Option ℕ) (o : Option RecipientTypeFull)
        → Quiet (receiving_txo env kind schemas t txid v o)
    unfolding receiving_txo
    receiving_txo-Quiet t txid v none = search calls
    receiving_txo-Quiet t txid v (some (blind u)) = search (calls, tables)
    receiving_txo-Quiet t txid v (some (witness w)) = search (calls, tables)

    get_consignment-Quiet : (url r : String) → Quiet (get_consignment env kind schemas url r)
    unfolding get_consignment
    get_consignment-Quiet url r = search calls

    pub try_endpoints-Quiet :
        (r : String) (l : List DbTransferEndpoint) → Quiet (try_endpoints env kind schemas r l)
    unfolding try_endpoints
    try_endpoints-Quiet r [] = search calls
    try_endpoints-Quiet r (e ∷ es) =
        >>=-Quiet (get_consignment-Quiet _ _)
          (λ o. map_or-Quiet o (try_endpoints-Quiet r es) (λ c. search (calls, tables)))
