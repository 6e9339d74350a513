-- ===== src/Multisig/Files.antt =====
-- The files of an operation and the mark of a processed operation, of src/wallet/multisig.rs.
use rgb_lib.Prelude.{
  ℕ, String, Bool, true, false, List, [], ◌∷◌, Option, none, some, find, if◌then◌else◌,
}
use rgb_lib.Result.{Result, ok, err, multisig_unexpected_data, cannot_combine_psbts}
use rgb_lib.Action.{map_or}
use rgb_lib.Multisig.{
  FileType, consignment, media, operation_data, operation_psbt, response_psbt, fascia, FileMetadata,
  FileResponse, OperationResponse, MultisigVotingStatus,
}
use rgb_lib.Multisig.Process.{
  Process, MarkReply, marked, already_marked, mark_failed, Hub, give, fails, ◌>>=◌, ◌>>◌, of_result,
  call, set_last_processed,
}

abbrev pub type_is : FileType → FileType → Bool
type_is consignment consignment = true
type_is media media = true
type_is operation_data operation_data = true
type_is operation_psbt operation_psbt = true
type_is response_psbt response_psbt = true
type_is fascia fascia = true
type_is _ _ = false

-- the path of the first file of a type
abbrev pub find_file : FileType → List FileResponse → Result String
find_file type files =
    map_or (find (λ (f : FileResponse). type_is f.type type) files) (err multisig_unexpected_data)
      (λ f. ok f.filepath)

unfoldable pub build_voting_status : OperationResponse → Option Bool → Result MultisigVotingStatus
build_voting_status op my_response = map_or op.threshold (err multisig_unexpected_data) λ n.
    ok (record {
      acked_by = op.acked_by;
      nacked_by = op.nacked_by;
      threshold = n;
      my_response = my_response;
    })

module _ {S : Type 0} (hub : Hub S) where
  unfoldable pub extract_psbt_string : List FileResponse → Process S String
  extract_psbt_string files = do
    path ← of_result (find_file operation_psbt files)
    call (hub.read_psbt path)

  -- the first response's PSBT, combined with the others; `combined` tells whether there was another
  unfoldable pub combine_loop :
      List FileResponse → Option String → Bool → Process S (Option String × Bool)
  combine_loop [] psbt combined = give (psbt, combined)
  combine_loop (f ∷ fs) psbt combined =
      let skip = combine_loop fs psbt combined in
      let read = call (hub.read_psbt f.filepath) >>= λ p.
      map_or psbt (combine_loop fs (some p) combined) λ first.
        map_or (hub.combine first p) (fails cannot_combine_psbts)
          λ both. combine_loop fs (some both) true in
      if type_is f.type response_psbt then read else skip

  abbrev pub combined_or_fails : Option String × Bool → Process S String
  combined_or_fails (some p, true) = give p
  combined_or_fails (none, true) = of_result Result.panic
  combined_or_fails (psbt, false) = fails multisig_unexpected_data

  unfoldable pub combine_psbts_from_files : List FileResponse → Process S String
  unfolding combine_loop
  combine_psbts_from_files files = do r ← combine_loop files none false; combined_or_fails r

  abbrev pub ignore_marked : MarkReply → Process S (Unit {0})
  ignore_marked marked = give tt
  ignore_marked already_marked = give tt
  ignore_marked (mark_failed e) = fails e

  unfoldable pub mark_operation_as_processed : ℕ → Process S (Unit {0})
  mark_operation_as_processed operation_idx = do
    cosigner ← call hub.is_cosigner
    let mark : Process S (Unit {0}) = do
      reply ← call (hub.mark_operation_processed operation_idx)
      ignore_marked reply
    (if cosigner then mark else give tt)
    set_last_processed operation_idx

  unfoldable pub get_or_download_files : List FileMetadata → Process S (List FileResponse)
  get_or_download_files [] = give []
  get_or_download_files (m ∷ ms) = do
    path ← call (hub.get_or_download_file m)
    rest ← get_or_download_files ms
    give (record { type = m.type; filepath = path } ∷ rest)
