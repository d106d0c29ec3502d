-- ===== src/Bls/Tests.antt =====
-- Networks of a few nodes, over a signature scheme that is easy to run: a key signs with itself, and
-- only numbers of one digit are printed.
use p2pmq.Base.{
  ℕ, ◌+◌, ◌≤◌, ◌-◌, ◌*◌, ◌/◌, ◌%◌, ◌<◌, ◌≡◌, refl, String, true, List, [], ◌∷◌, Option, none, some,
  length, eqb, ◌==◌, if◌then◌else◌, arith, string_key, nat_key, ◌&&◌,
}
use p2pmq.Base.Dict.{lookup, insert}
use p2pmq.Bls.Report.{SignedReport}
use p2pmq.Proto.{accept, reject}
use p2pmq.Bls.ReportBuffer.{
  ReportBuffer, new_report_buffer, add, get, get_latest, get_all, latest_from, lookup_seq,
  lookup_ids, ring_for, validate_sequence,
}
use p2pmq.Bls.History.{History, expected}
use p2pmq.Bls.Refine.{get-expected}
use p2pmq.Bls.Ring.{IsBuffer, new_report_buffer-IsBuffer, add-IsBuffer}
use p2pmq.Bls.Window.{AreNear, add_all, get-add, get-add_all}
use p2pmq.Bls.Sequence.{validate_sequence_window}
use p2pmq.Bls.Crypto.{Crypto}
use p2pmq.Bls.Share.{
  Share, threshold, round_robin_leader, quorum_count, sign, reconstruct_sigs, reconstruct_from,
}
use p2pmq.Bls.Node.{Node, has_quorum, node_quorum_count, is_processable, flags, get_leader}
use p2pmq.Bls.InternalNet.{
  on_quorum, signer_reports, consume_internal_net, node_consume, on_stored, prepare_report,
  collect_signatures, collect_from, collect_one,
}
use p2pmq.Bls.Quorum.{threshold_intersects, quorum_publishes_nothing}
use p2pmq.Bls.Signs.{signed_count, counts}
use p2pmq.Bls.Once.{signs_at_most_once}
use p2pmq.Bls.Nodes.{consume_all}

program : Unit {0}
unfolding lookup insert new_report_buffer add get get_latest get_all latest_from lookup_seq
    lookup_ids ring_for validate_sequence add_all
program = tt

abbrev digit : ℕ → String
digit n =
    if eqb n 1
    then "1"
    else if eqb n 2
    then "2"
    else if eqb n 3
    then "3"
    else if eqb n 4
    then "4"
    else "0"

abbrev undigit : String → Option ℕ
undigit s =
    if s == "1"
    then some 1
    else if s == "2"
    then some 2
    else if s == "3"
    then some 3
    else if s == "4"
    then some 4
    else none

abbrev toy : Crypto
toy = record {
  PublicKey = ℕ;
  SecretKey = ℕ;
  Sign = ℕ;
  SignerId = ℕ;
  sign_byte = λ k bytes. k;
  verify_byte = λ s k bytes. eqb s k;
  serialize_to_hex_str = digit;
  deserialize_hex_str = undigit;
  serialize = λ s. s ∷ [];
  deserialize = λ bytes. elim bytes [ [] ↦ none | s ∷ _ ↦ some s ];
  set_dec_string = undigit;
  get_public_key = λ k. k;
  set = λ keys id. elim keys [ [] ↦ none | k ∷ _ ↦ some k ];
  recover = λ sigs ids. elim sigs [ [] ↦ none | s ∷ _ ↦ some s ];
  decimal = digit;
  parse_uint = undigit;
}

abbrev net : String
net = "net"

-- The report of a number by a signer, 0 for a network's.
abbrev report : ℕ → ℕ → SignedReport
report seq id = record {
  network = "net";
  bytes = [];
  sig_hex = digit id;
  seq_number = seq;
  signer_id = id;
}

-- A buffer with four slots, which holds the reports 5 and 6.
abbrev empty : ReportBuffer
empty = new_report_buffer 4

empty-IsBuffer : IsBuffer empty
empty-IsBuffer = new_report_buffer-IsBuffer 4 (omega arith)

abbrev one : ReportBuffer
one = (add "net" (report 5 0) empty).0

one-IsBuffer : IsBuffer one
one-IsBuffer = add-IsBuffer "net" (report 5 0) empty empty-IsBuffer

abbrev two : ReportBuffer
two = (add "net" (report 6 0) one).0

two-IsBuffer : IsBuffer two
two-IsBuffer = add-IsBuffer "net" (report 6 0) one one-IsBuffer

found_both : (get "net" 5 two ≡ some (report 5 0)) × (get "net" 7 two ≡ none)
unfolding program
found_both = (refl, refl)

-- Of the two reports that `GetAll` counts, it returns the ring's last slot twice.
all_of_two : length (get_all "net" two) ≡ 2
unfolding program
all_of_two = refl

get-add_example : get net 9 (add net (report 9 0) two).0 ≡ (
    if (net == net)
      && (eqb (9 % two.buffer_size) (9 % two.buffer_size) && (add net (report 9 0) two).1)
    then (if eqb 9 9 then some (report 9 0) else none)
    else get net 9 two)
get-add_example = get-add net net (report 9 0) 9 two two-IsBuffer (omega arith)

five_found : get "net" 5 one ≡ some (report 5 0)
unfolding program
five_found = refl

abbrev later : List (String × SignedReport)
later = ("net", report 6 0) ∷ ("net", report 8 0) ∷ ("other", report 99 0) ∷ []

later-AreNear : AreNear "net" (5 + one.buffer_size) later
unfolding program
later-AreNear = (
  λ e. omega arith,
  (λ e. omega arith, (λ e. ground (arith, string_key.same_iff "other" "net"), tt)),
)

get-add_all_example : get "net" 5 (add_all later one) ≡ some (report 5 0)
get-add_all_example =
    get-add_all "net" (report 5 0) 5 later one one-IsBuffer (omega arith) five_found later-AreNear

latest_six : get_latest "net" two ≡ some (report 6 0)
unfolding program
latest_six = refl

-- A report that is behind the latest is rejected.
validate_sequence_window_example : validate_sequence (report 3 0) two ≡ reject
validate_sequence_window_example =
    validate_sequence_window (report 3 0) (report 6 0) two latest_six (omega arith) (omega arith)

seven_accepted : validate_sequence (report 7 0) two ≡ accept
unfolding program
seven_accepted = refl

threshold_of_four : (threshold 4 + (4 - 1) / 3 ≡ 4) × (4 + (4 - 1) / 3 < 2 * threshold 4)
threshold_of_four = threshold_intersects 4 (omega arith)

-- A node that is the third of four signers, with its own report of number 5 and the leader's.
abbrev share : Share toy
share = record { signer_id = 3; private_key = 3; signers = (1, 1) ∷ (2, 2) ∷ (3, 3) ∷ (4, 4) ∷ [] }

abbrev signed : ReportBuffer
signed = (add "3" (report 5 3) (add "2" (report 5 2) empty).0).0

signed-IsBuffer : IsBuffer signed
signed-IsBuffer =
    add-IsBuffer "3" (report 5 3) (add "2" (report 5 2) empty).0
      (add-IsBuffer "2" (report 5 2) empty empty-IsBuffer)

abbrev node : Node toy
node = record {
  pubstore = [];
  reports = empty;
  shares = ("net", share) ∷ [];
  internal_reports = ("net", signed) ∷ [];
}

abbrev three : List String
three = "1" ∷ "2" ∷ "3" ∷ []

three_needed : length three ≡ node_quorum_count toy "net" node
unfolding program node_quorum_count quorum_count threshold
three_needed = refl

quorum_publishes_nothing_example :
    (has_quorum toy (report 5 1) three node ≡ true)
    × (on_quorum toy (report 5 1) signed three node ≡ [])
quorum_publishes_nothing_example =
    quorum_publishes_nothing toy (report 5 1) signed three node three_needed

sent : SignedReport → Option String
sent sr = none

-- A node that has consumed nothing, and the leader's report and another signer's.
abbrev fresh : Node toy
fresh = record {
  pubstore = [];
  reports = empty;
  shares = ("net", share) ∷ [];
  internal_reports = [];
}

abbrev round_five : List SignedReport
round_five = report 5 2 ∷ report 5 1 ∷ []

signs_at_most_once_example : signed_count "net" 5 (consume_all toy sent round_five fresh).1 ≤ 1
unfolding lookup
signs_at_most_once_example =
    signs_at_most_once toy "net" 5 sent share round_five fresh (omega arith) refl refl
      (λ e. omega arith, (λ e. omega arith, tt))

-- It signs with the first of them, and only then.
signs_once : signed_count "net" 5 (consume_all toy sent round_five fresh).1 ≡ 1
unfolding program signed_count consume_all node_consume consume_internal_net signer_reports
    on_stored is_processable flags get_leader round_robin_leader sign on_quorum has_quorum
    node_quorum_count quorum_count threshold collect_signatures collect_from collect_one
    prepare_report reconstruct_sigs reconstruct_from counts sent
signs_once = refl

-- Of two reports of one number the first is found.
abbrev history : History
history = ("net", report 5 0) ∷ ("net", report 5 1) ∷ ("other", report 9 0) ∷ []

get-expected_example :
    get "net" 5 (add_all history (new_report_buffer 4)) ≡ expected 4 "net" 5 history
get-expected_example = get-expected 4 history "net" 5 (omega arith) (omega arith)
