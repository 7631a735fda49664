-- ===== src/Workspace.antt =====
-- internal/ops/ops.go: the workspace container of this host. The names of images, what is asked of
-- podman, git and curl, and the calls of the operating system (Host). What the packages strings and
-- encoding/json do with whole outputs is a parameter (GoText); what the code cuts itself is written
-- out.
pub mod Image
pub mod Podman
pub mod Sync
pub mod Checks
mod Tests
pub mod Teardown
pub mod Update
use Prim.Native.Char.{code}
use Prim.Native.String.{◌++◌ as append}
use aw_remote_host.Common.{
  [], ◌==◌, if◌then◌else◌, leb, ℕ, zero, suc, String, Bool, true, false, not, ◌&&◌, ◌||◌, Option,
  none, some, List, ◌∷◌, str_eq,
}

-- strings.TrimSpace, strings.Fields, strings.Split by line ends; the "digest" fields that
-- json.Unmarshal finds in the manifests of an output; the "version" that it finds in one.
pub record GoText : Type 0 where
  pub trim : String → String
  pub fields : String → List String
  pub lines : String → List String
  pub manifests : String → Option (List String)
  pub version_field : String → Option String

-- strings.CutPrefix.
unfoldable pub cut_prefix : String → String → Option String
cut_prefix s String.[] = some s
cut_prefix String.[] (String.◌∷◌ d p) = none
cut_prefix (String.◌∷◌ c s) (String.◌∷◌ d p) = if code c == code d then cut_prefix s p else none

abbrev pub is_some : {A : Type 0} → Option A → Bool
is_some none = false
is_some (some a) = true

-- strings.HasPrefix.
abbrev pub has_prefix : String → String → Bool
has_prefix s p = is_some (cut_prefix s p)

-- strings.Contains for one character.
unfoldable pub has_char : ℕ → String → Bool
has_char k String.[] = false
has_char k (String.◌∷◌ c s) = code c == k || has_char k s

-- The text before the first `@`; all of it if there is none.
unfoldable pub before_at : String → String
before_at String.[] = String.[]
before_at (String.◌∷◌ c s) = if code c == b'@' then String.[] else String.◌∷◌ c (before_at s)

-- The text behind the first `@`; all of it if there is none.
abbrev pub after_at_from : String → String → String
after_at_from whole String.[] = whole
after_at_from whole (String.◌∷◌ c s) = if code c == b'@' then s else after_at_from whole s

unfoldable pub after_at : String → String
after_at s = after_at_from s s

-- The text before the last colon, if nothing behind it is a `/`; all of it otherwise.
unfoldable pub before_tag : String → String
unfolding has_char
before_tag String.[] = String.[]
before_tag (String.◌∷◌ c s) =
    if code c == b':' && (not (has_char b':' s) && not (has_char b'/' s))
    then String.[]
    else String.◌∷◌ c (before_tag s)

-- imageRepository.
unfoldable pub image_repository : String → String
unfolding before_at before_tag
image_repository image = before_tag (before_at image)

abbrev pub workspace_container : String
workspace_container = "aw-remote-host-workspace"

abbrev pub default_image : String
default_image = "ghcr.io/fredericowu/aw-workspace:latest"

-- workspaceImage; what the state file holds, if it can be loaded, and AW_WORKSPACE_IMAGE.
unfoldable pub workspace_image : GoText → Option String → String → String
workspace_image t recorded env =
    let image : String = elim recorded [ none ↦ "" | some r ↦ t.trim r ] in
    if not (str_eq image "")
    then image
    else (if not (str_eq (t.trim env) "") then t.trim env else default_image)

-- workspaceImageForVersion; `steady` is what workspaceImage gives.
unfoldable pub workspace_image_for_version : GoText → String → String → String
unfolding image_repository
workspace_image_for_version t steady version =
    if str_eq (t.trim version) ""
    then steady
    else append (image_repository steady) (append ":" (t.trim version))

-- podmanPullArgs.
unfoldable pub podman_pull_args : String → List String
unfolding cut_prefix
podman_pull_args image =
    if has_prefix image "localhost/"
      || (has_prefix image "localhost:"
          || (has_prefix image "127.0.0.1/" || has_prefix image "127.0.0.1:"))
    then "pull" ∷ "--tls-verify=false" ∷ image ∷ []
    else "pull" ∷ image ∷ []

abbrev is_hex : ℕ → Bool
is_hex c = (leb b'0' c && leb c b'9') || ((leb b'a' c && leb c b'f') || (leb b'A' c && leb c b'F'))

unfoldable pub all_hex : String → Bool
all_hex String.[] = true
all_hex (String.◌∷◌ c s) = is_hex (code c) && all_hex s

unfoldable pub size : String → ℕ
size String.[] = 0
size (String.◌∷◌ c s) = suc (size s)

abbrev pub take_text : ℕ → String → String
take_text zero s = String.[]
take_text (suc n) String.[] = String.[]
take_text (suc n) (String.◌∷◌ c s) = String.◌∷◌ c (take_text n s)

-- isLongHexSHA. It counts bytes, which are the characters where all of them are hexadecimal.
unfoldable pub is_long_hex_sha : String → Bool
unfolding all_hex size
is_long_hex_sha version = leb 8 (size version) && (leb (size version) 40 && all_hex version)

-- shortenSHAVersion.
unfoldable pub shorten_sha_version : String → String
unfolding is_long_hex_sha
shorten_sha_version version = if is_long_hex_sha version then take_text 7 version else version
