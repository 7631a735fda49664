-- ===== src/Headers.antt =====
-- The header codec of internal/link/link.go: headersFromFrame and headersWire. A header is listed
-- with its names ascending, the order in which headersWire sends them. What a frame holds is modelled
-- as far as the type assertions can tell. http.Header.Add's canonical spelling of a name is a
-- parameter.
pub mod RoundTrip
mod Tests
use aw_remote_host.Common.{
  [], if◌then◌else◌, String, Bool, true, false, ◌||◌, Option, none, some, List, ◌∷◌, ◌++◌, str_eq,
}
use aw_remote_host.Common.Assoc.{Assoc, lookup, insert}

abbrev pub Header : Type 0
Header = Assoc (List String)

abbrev pub or_none : Option (List String) → List String
or_none none = []
or_none (some vs) = vs

-- http.Header.Values.
abbrev pub values : String → Header → List String
values k h = or_none (lookup k h)

-- http.Header.Add.
unfoldable pub add : (String → String) → String → String → Header → Header
add canon k v h = insert (canon k) (values (canon k) h ++ v ∷ []) h

pub data Scalar : Type 0 where
  text : String → Scalar
  other_value : Scalar

pub data Item : Type 0 where
  items : List Scalar → Item
  other_item : Item

pub data Field : Type 0 where
  pairs : List Item → Field
  other_field : Field

-- The name and the value of a usable pair.
abbrev pub usable : Item → Option (String × String)
usable (items (text k ∷ text v ∷ [])) = if str_eq k "" then none else some (k, v)
usable _ = none

abbrev pub add_pair : (String → String) → Option (String × String) → Header → Header
add_pair canon none h = h
add_pair canon (some (k, v)) h = add canon k v h

-- The loop of headersFromFrame over "headers_multi".
unfoldable pub add_pairs : (String → String) → List Item → Header → Header
add_pairs canon [] h = h
add_pairs canon (i ∷ is) h = add_pairs canon is (add_pair canon (usable i) h)

abbrev pub is_some : Option (String × String) → Bool
is_some none = false
is_some (some p) = true

-- Did the loop find a usable pair?
unfoldable pub any_usable : List Item → Bool
any_usable [] = false
any_usable (i ∷ is) = is_some (usable i) || any_usable is

-- The loop of headersFromFrame over "headers".
unfoldable pub add_legacy : (String → String) → List (String × Scalar) → Header → Header
add_legacy canon [] h = h
add_legacy canon ((k, text v) ∷ m) h = add_legacy canon m (add canon k v h)
add_legacy canon ((k, other_value) ∷ m) h = add_legacy canon m h

-- headersFromFrame.
unfoldable pub headers_from_frame : (String → String) → Field → List (String × Scalar) → Header
headers_from_frame canon other_field legacy = add_legacy canon legacy []
headers_from_frame canon (pairs is) legacy =
    if any_usable is then add_pairs canon is [] else add_legacy canon legacy []

-- The legacy half of headersWire: the first value of each name.
unfoldable pub wire_legacy : Header → List (String × String)
wire_legacy [] = []
wire_legacy ((k, []) ∷ h) = wire_legacy h
wire_legacy ((k, v ∷ vs) ∷ h) = (k, v) ∷ wire_legacy h

abbrev pub pairs_of : String → List String → List (String × String) → List (String × String)
pairs_of k [] rest = rest
pairs_of k (v ∷ vs) rest = (k, v) ∷ pairs_of k vs rest

-- The full half of headersWire: each name with each of its values.
unfoldable pub wire_multi : Header → List (String × String)
wire_multi [] = []
wire_multi ((k, vs) ∷ h) = pairs_of k vs (wire_multi h)

-- The two fields as a frame carries them.
abbrev pub sent_pairs : List (String × String) → List Item
sent_pairs [] = []
sent_pairs ((k, v) ∷ ps) = items (text k ∷ text v ∷ []) ∷ sent_pairs ps

abbrev pub sent_legacy : List (String × String) → List (String × Scalar)
sent_legacy [] = []
sent_legacy ((k, v) ∷ ps) = (k, text v) ∷ sent_legacy ps
