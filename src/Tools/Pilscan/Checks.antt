-- ===== src/Tools/Pilscan/Checks.antt =====
-- pilscan/main.go: the checks on bytes, records, CIDs and arguments. A JSON object is the list of its
-- keys and values, in the order in which the map is ranged over; the JSON decoders are the fields of
-- `Json`.
use fabric_hris.Prelude.{
  ℕ, suc, ◌+◌, Text, text, Bytes, ◌==◌, ltb, leb, contains, is_empty, length, take, not, ◌&&◌,
  Option, none, some, List, [], ◌∷◌, ◌++◌, map, if◌then◌else◌,
}
use fabric_hris.Prelude.Maps.{Map, lookup}
use fabric_hris.Keystore.Decimal.{print_int}
use fabric_hris.Tools.Pilscan.Patterns.{
  fixture_dictionary, allowed_record_fields, section_enum, is_listed, is_hex64, is_data_hash,
  is_plausible_cid,
}
use fabric_hris.Tools.Pilscan.Findings.{
  ChannelStats, Check, violation, leak, run_check, run_checks, for_each, decoded,
}

-- An element of a decoded JSON array, and a value.
pub data Item : Type 0 where
  string_item : Text → Item
  other_item : Item

pub data Value : Type 0 where
  string_value : Text → Value
  array_value : List Item → Value
  other_value : Value

pub record Json : Type 0 where
  -- json.Unmarshal into a map[string]interface{} and into a []string
  pub decode_object : Bytes → Option (Map Value)
  pub decode_strings : Bytes → Option (List Text)

unfoldable pub truncate : Text → ℕ → Text
truncate s n = if leb (length s) n then s else take n s ++ text "...(truncated)"

abbrev pub raw_check : Bytes → Text → Check
raw_check raw f =
    violation (contains raw f) (text "fixture string %q found in raw block bytes" ∷ f ∷ [])

unfoldable pub scan_raw_backstop : ℕ → Bytes → ChannelStats → ChannelStats
unfolding run_checks
scan_raw_backstop block raw stats =
    run_checks block (text "raw-block-backstop" ∷ []) (map (raw_check raw) fixture_dictionary)
      (record stats { raw_bytes_scanned = stats.raw_bytes_scanned + length raw })

abbrev pub cid_checks : Text → List Check
cid_checks cid =
    leak cid
      (text
          "ipfsCIDs entry contains fixture string %q (document content leaked into a CID field?): %q"
        ∷ [])
      (cid ∷ [])
    ∷ violation (not (is_plausible_cid cid)) (
        text
          "ipfsCIDs entry is not a plausible CID string (wrong charset/length for base58 CIDv0 or base32/base64 CIDv1): %q"
        ∷ cid
        ∷ [])
    ∷ violation (ltb 130 (length cid)) (
        text "ipfsCIDs entry implausibly long (%d bytes) for a CID — possible embedded content: %q"
        ∷ print_int (length cid)
        ∷ truncate cid 60
        ∷ [])
    ∷ []

unfoldable pub check_cid : ℕ → List Text → Text → ChannelStats → ChannelStats
unfolding run_checks truncate
check_cid block location cid = run_checks block location (cid_checks cid)

-- stats.IpfsCIDsChecked++; checkCID(...)
unfoldable pub count_cid : ℕ → List Text → Text → ChannelStats → ChannelStats
unfolding check_cid
count_cid block location cid stats =
    check_cid block location cid (record stats { ipfs_cids_checked = suc stats.ipfs_cids_checked })

-- v, ok := m[field].(string)
unfoldable pub string_field : Map Value → Text → Option Text
string_field m field = elim (lookup field m) [
  | none ↦ none
  | some v ↦ elim v [ string_value s ↦ some s | array_value items ↦ none | other_value ↦ none ]
]

-- The checks of a field, where it is a string.
abbrev pub when_string : Option Text → (Text → List Check) → List Check
when_string none checks = []
when_string (some v) checks = checks v

abbrev pub key_check : Text × Value → Check
key_check (k, v) = violation (not (is_listed allowed_record_fields k)) (
    text "SCHEMA VIOLATION: on-chain record has field %q, not in the ratified 12-field set"
    ∷ k
    ∷ [])

-- The closure checkHex64.
abbrev pub hex64_checks : Text → Text → List Check
hex64_checks field v =
    leak v (text "%s value contains fixture string %q: %q" ∷ field ∷ []) (v ∷ [])
    ∷ violation (not (is_hex64 v))
        (text "%s is not a 64-hex-char HMAC-SHA256 output (plaintext-shaped?): %q" ∷ field ∷ v ∷ [])
    ∷ []

abbrev pub data_hash_checks : Text → List Check
data_hash_checks v =
    leak v (text "dataHash contains fixture string %q: %q" ∷ []) (v ∷ [])
    ∷ violation (not (is_data_hash v))
        (text "dataHash is not \"sha256:<64 hex>\" (raw content?): %q" ∷ v ∷ [])
    ∷ []

abbrev pub prev_hash_checks : Text → List Check
prev_hash_checks v =
    violation (not (is_empty v) && not (is_data_hash v))
      (text "prevHash is neither empty nor \"sha256:<64 hex>\": %q" ∷ v ∷ [])
    ∷ []

abbrev pub section_checks : Text → List Check
section_checks v =
    violation (not (is_listed section_enum v))
      (text "profileSection is not one of the five ratified values: %q" ∷ v ∷ [])
    ∷ []

-- What checkRecordJSON checks of an object before its CIDs.
unfoldable pub object_checks : Map Value → List Check
unfolding string_field
object_checks m =
    map key_check m
    ++ (when_string (string_field m (text "employeeID")) (hex64_checks (text "employeeID"))
        ++ (when_string (string_field m (text "updatedBy")) (hex64_checks (text "updatedBy"))
            ++ (when_string (string_field m (text "dataHash")) data_hash_checks
                ++ (when_string (string_field m (text "prevHash")) prev_hash_checks
                    ++ when_string (string_field m (text "profileSection")) section_checks))))

unfoldable pub check_item : ℕ → List Text → Item → ChannelStats → ChannelStats
unfolding count_cid
check_item block location (string_item s) stats = count_cid block location s stats
check_item block location other_item stats = stats

-- The elements of the field ipfsCIDs, where it is an array.
unfoldable pub cid_items : Map Value → List Item
cid_items m = elim (lookup (text "ipfsCIDs") m) [
  | none ↦ []
  | some v ↦ elim v [ array_value items ↦ items | string_value s ↦ [] | other_value ↦ [] ]
]

-- checkRecordJSON of an object.
unfoldable pub check_object : ℕ → List Text → Map Value → ChannelStats → ChannelStats
unfolding for_each run_checks object_checks cid_items check_item
check_object block location m stats =
    for_each (check_item block location) (cid_items m)
      (run_checks block location (object_checks m) stats)

-- The arguments that checkArgs takes by position, where there are ten at least.
pub record Submitted : Type 0 where
  pub employee_id : Text
  pub section : Text
  pub data_hash : Text
  pub prev_hash : Text
  pub updated_by : Text
  pub cids : Text

unfoldable pub submitted_of : List Bytes → Option Submitted
submitted_of
      (tenant ∷ employee_id ∷ section ∷ data_hash ∷ prev ∷ updated_by ∷ cids ∷ version ∷ algo ∷ time
        ∷ more) =
    some (record {
      employee_id = employee_id;
      section = section;
      data_hash = data_hash;
      prev_hash = prev;
      updated_by = updated_by;
      cids = cids;
    })
submitted_of args = none

-- The checks of checkArgs by position.
abbrev pub position_checks : Submitted → List Check
position_checks a =
    violation (not (is_hex64 a.employee_id))
      (text "employeeID arg is not 64-hex HMAC output: %q" ∷ a.employee_id ∷ [])
    ∷ violation (not (is_hex64 a.updated_by))
        (text "updatedBy arg is not 64-hex HMAC output: %q" ∷ a.updated_by ∷ [])
    ∷ violation (not (is_data_hash a.data_hash))
        (text "dataHash arg is not \"sha256:<64 hex>\": %q" ∷ a.data_hash ∷ [])
    ∷ violation (not (is_empty a.prev_hash) && not (is_data_hash a.prev_hash))
        (text "prevHash arg is neither empty nor \"sha256:<64 hex>\": %q" ∷ a.prev_hash ∷ [])
    ∷ violation (not (is_listed section_enum a.section))
        (text "profileSection arg not one of the five ratified values: %q" ∷ a.section ∷ [])
    ∷ []

-- The check of one argument in the loop of checkArgs.
abbrev pub arg_check : Text → ℕ → Bytes → Check
arg_check fn i a =
    leak a (text "fn=%s arg[%d] contains fixture string %q: %q" ∷ fn ∷ print_int i ∷ [])
      (truncate a 200 ∷ [])

abbrev pub tx_args : List Text
tx_args = text "tx-args" ∷ []

-- The loop of checkArgs, from an index on.
unfoldable pub scan_args : ℕ → Text → ℕ → List Bytes → ChannelStats → ChannelStats
unfolding run_check truncate
scan_args block fn i [] stats = stats
scan_args block fn i (a ∷ args) stats = scan_args block fn (suc i) args (
    run_check block tx_args (arg_check fn i a)
      (record stats { tx_args_checked = suc stats.tx_args_checked }))

-- The strings of the argument ipfsCIDs, where they can be decoded.
abbrev pub or_empty : Option (List Text) → List Text
or_empty none = []
or_empty (some list) = list

module _ (json : Json) where
  unfoldable pub check_record_json : ℕ → List Text → Bytes → ChannelStats → ChannelStats
  unfolding check_object
  check_record_json block location raw =
      decoded (json.decode_object raw) (check_object block location)

  unfoldable pub check_positions : ℕ → Submitted → ChannelStats → ChannelStats
  unfolding run_checks for_each count_cid
  check_positions block a stats =
      for_each (count_cid block tx_args) (or_empty (json.decode_strings a.cids))
        (run_checks block tx_args (position_checks a) stats)

  -- The part of checkArgs after the loop.
  unfoldable pub check_shape : ℕ → Text → List Bytes → ChannelStats → ChannelStats
  unfolding check_positions
  check_shape block fn args =
      decoded (if fn == text "RecordProfileSection" then submitted_of args else none)
        (check_positions block)

  unfoldable pub check_args : ℕ → Text → List Bytes → ChannelStats → ChannelStats
  unfolding scan_args check_shape
  check_args block fn args stats = check_shape block fn args (scan_args block fn 0 args stats)
