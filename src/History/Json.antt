-- ===== src/History/Json.antt =====
-- JSON values as the program uses them (encoding/json, json.RawMessage), and the readers that
-- `json.Unmarshal` applies to the fields of a payload.
use go_project.Prelude.{
  String, Bool, false, Option, none, some, [], ◌∷◌, ◌==◌, if◌then◌else◌, ℤ, pos, Result, ok, err,
  decode_payload, marshal_payload, ◌>>=◌, Assoc,
}

-- `time` is a string that holds an RFC 3339 instant, `other` any value that the program never
-- looks into (an array, a fraction), by its text.
mutual
  pub data Json : Type 0 where
    null : Json
    flag : Bool → Json
    number : ℤ → Json
    text : String → Json
    time : ℤ → Json
    other : String → Json
    obj : Members → Json

  pub data Members : Type 0 where
    end : Members
    member : String → Json → Members → Members

-- `json.RawMessage`: a nil or empty slice, the bytes of a value, or bytes that are no JSON.
pub data Raw : Type 0 where
  absent : Raw
  value : Json → Raw
  malformed : String → Raw

-- The instant of a zero `time.Time`.
abbrev pub zero_time : ℤ
zero_time = pos 0

later_wins : Option Json → Option Json → Option Json
later_wins (some v) old = some v
later_wins none old = old

-- The value of a key; of a repeated key the last one counts.
unfoldable pub field? : String → Members → Option Json
unfolding later_wins
field? k end = none
field? k (member j v m) = later_wins (field? k m) (if j == k then some v else none)

-- A missing key and `null` leave the field at its zero value.
unfoldable pub as_text : Option Json → Result String
as_text none = ok ""
as_text (some Json.null) = ok ""
as_text (some (text s)) = ok s
as_text (some _) = err decode_payload

unfoldable pub as_flag : Option Json → Result Bool
as_flag none = ok false
as_flag (some Json.null) = ok false
as_flag (some (flag b)) = ok b
as_flag (some _) = err decode_payload

unfoldable pub as_number : Option Json → Result ℤ
as_number none = ok (pos 0)
as_number (some Json.null) = ok (pos 0)
as_number (some (number n)) = ok n
as_number (some _) = err decode_payload

unfoldable pub as_time : Option Json → Result ℤ
as_time none = ok zero_time
as_time (some Json.null) = ok zero_time
as_time (some (time t)) = ok t
as_time (some _) = err decode_payload

-- A raw field takes any value as it is, `null` too.
unfoldable pub as_raw : Option Json → Raw
as_raw none = absent
as_raw (some v) = value v

unfoldable pub text_members : Members → Result (Assoc String)
unfolding as_text
text_members end = ok []
text_members (member k v m) = as_text (some v) >>= λ s. text_members m >>= λ r. ok ((k, s) ∷ r)

unfoldable pub as_texts : Option Json → Result (Assoc String)
unfolding text_members
as_texts none = ok []
as_texts (some Json.null) = ok []
as_texts (some (obj m)) = text_members m
as_texts (some _) = err decode_payload

unfoldable pub raw_members : Members → Assoc Raw
raw_members end = []
raw_members (member k v m) = (k, value v) ∷ raw_members m

unfoldable pub as_raws : Option Json → Result (Assoc Raw)
unfolding raw_members
as_raws none = ok []
as_raws (some Json.null) = ok []
as_raws (some (obj m)) = ok (raw_members m)
as_raws (some _) = err decode_payload

-- `json.Marshal` of a raw message: nil is written as `null`, and bytes that are no JSON fail.
unfoldable pub marshal_raw : Raw → Result Json
marshal_raw absent = ok Json.null
marshal_raw (value v) = ok v
marshal_raw (malformed s) = err marshal_payload

unfoldable pub marshal_texts : Assoc String → Members
marshal_texts [] = end
marshal_texts ((k, s) ∷ m) = member k (text s) (marshal_texts m)

unfoldable pub marshal_raws : Assoc Raw → Result Members
unfolding marshal_raw
marshal_raws [] = ok end
marshal_raws ((k, r) ∷ m) = marshal_raw r >>= λ v. marshal_raws m >>= λ rest. ok (member k v rest)

-- The `omitempty` forms: a zero value writes no member.
unfoldable pub text_if_set : String → String → Members → Members
text_if_set k s m = if s == "" then m else member k (text s) m

unfoldable pub texts_if_set : String → Assoc String → Members → Members
unfolding marshal_texts
texts_if_set k [] m = m
texts_if_set k (p ∷ ps) m = member k (obj (marshal_texts (p ∷ ps))) m

unfoldable pub raws_member : String → Members → Members → Members
raws_member k end m = m
raws_member k (member j v r) m = member k (obj (member j v r)) m

unfoldable pub raws_if_set : String → Assoc Raw → Members → Result Members
unfolding marshal_raws raws_member
raws_if_set k rs m = marshal_raws rs >>= λ r. ok (raws_member k r m)
