-- ===== src/Workspace/Image.antt =====
-- The names of images (internal/ops/ops.go): which repository an update asks the registry for.
use Prim.Native.String.{◌++◌ as append}
use text.Mathlib.TextLemmas.{cons-append, nil-append}
use aw_remote_host.Common.{ℕ, String, ◌≡◌, refl, true, false, ap, sym, ◌∙◌, str_eq, arith, ◌||◌}
use aw_remote_host.Workspace.{
  has_char, before_at, before_tag, image_repository, GoText, workspace_image_for_version,
}

has_char-append : (k : ℕ) (s t : String) → has_char k (append s t) ≡ (has_char k s || has_char k t)
unfolding has_char
has_char-append k String.[] t = rw (nil-append t) refl
has_char-append k (String.◌∷◌ c s) t =
    rw (cons-append c s t) (ground (arith, has_char-append k s t))

before_at-none : (s : String) → has_char b'@' s ≡ false → before_at s ≡ s
unfolding has_char before_at
before_at-none String.[] h = refl
before_at-none (String.◌∷◌ c s) h = ground (arith, before_at-none s)

before_at-append :
    (s v : String) → has_char b'@' s ≡ false → before_at (append s (append "@" v)) ≡ s
unfolding has_char before_at
before_at-append String.[] v h = rw (nil-append (append "@" v)) (rw (cons-append "@" "" v) refl)
before_at-append (String.◌∷◌ c s) v h =
    rw (cons-append c s (append "@" v)) (ground (arith, before_at-append s v))

-- A colon in front of `v` is found.
colon_found : (s v : String) → has_char b':' (append s (append ":" v)) ≡ true
unfolding has_char
colon_found s v =
    let e : has_char b':' (append ":" v) ≡ true = rw (cons-append ":" "" v) refl in
    ground (arith, has_char-append b':' s (append ":" v), e)

before_tag-append :
    (s v : String)
    → has_char b':' v ≡ false
    → has_char b'/' v ≡ false
    → before_tag (append s (append ":" v)) ≡ s
unfolding has_char before_tag
before_tag-append String.[] v hc hs =
    rw (nil-append (append ":" v)) (rw (cons-append ":" "" v) (rw (nil-append v, hc, hs) refl))
before_tag-append (String.◌∷◌ c s) v hc hs =
    rw (cons-append c s (append ":" v)) (ground (arith, colon_found s v, before_tag-append s v))

no_at :
    (repo tag : String)
    → has_char b'@' repo ≡ false
    → has_char b'@' tag ≡ false
    → has_char b'@' (append repo (append ":" tag)) ≡ false
unfolding has_char
no_at repo tag hr ht =
    let e : has_char b'@' (append ":" tag) ≡ false =
      rw (cons-append ":" "" tag) (rw (nil-append tag, ht) refl) in
    ground (arith, has_char-append b'@' repo (append ":" tag), e)

-- The repository of a name with a tag, and with a digest behind it.
image_repository-pinned :
    (repo tag digest : String)
    → has_char b'@' repo ≡ false
    → has_char b'@' tag ≡ false
    → has_char b':' tag ≡ false
    → has_char b'/' tag ≡ false
    → (image_repository (append repo (append ":" tag)) ≡ repo)
      × (image_repository (append (append repo (append ":" tag)) (append "@" digest)) ≡ repo)
unfolding image_repository
image_repository-pinned repo tag digest hr ht hc hs =
    let plain : has_char b'@' (append repo (append ":" tag)) ≡ false = no_at repo tag hr ht in
    (
      rw (before_at-none (append repo (append ":" tag)) plain) (before_tag-append repo tag hc hs),
      rw (before_at-append (append repo (append ":" tag)) digest plain)
          (before_tag-append repo tag hc hs),
    )

image_repository-digest :
    (repo digest : String)
    → has_char b'@' repo ≡ false
    → image_repository repo ≡ repo
    → image_repository (append repo (append "@" digest)) ≡ repo
unfolding image_repository
image_repository-digest repo digest hr whole =
    let plain = before_at-none repo hr in
    rw (before_at-append repo digest hr) (ap before_tag (sym plain) ∙ whole)

-- No `@`, no `:` and no `/`.
abbrev pub IsTag : String → Type 0
IsTag s = (has_char b'@' s ≡ false) × (has_char b':' s ≡ false) × (has_char b'/' s ≡ false)

-- For a version, an update asks the registry for that tag of the configured repository, whether the
-- configured name carries a tag, a digest, or both; and it gets the same repository back from what
-- it asked for. The repository has no `@` and is what imageRepository leaves of itself; tag and
-- version have no `:`, `/` and `@`.
pub workspace_image_for_version-retagged :
    (t : GoText) (repo tag digest version : String)
    → has_char b'@' repo ≡ false
    → image_repository repo ≡ repo
    → IsTag tag
    → IsTag (t.trim version)
    → str_eq (t.trim version) "" ≡ false
    → (workspace_image_for_version t (append repo (append ":" tag)) version
        ≡ append repo (append ":" (t.trim version)))
      × (workspace_image_for_version t (append repo (append "@" digest)) version
          ≡ append repo (append ":" (t.trim version)))
      × (workspace_image_for_version t
            (append (append repo (append ":" tag)) (append "@" digest))
            version
          ≡ append repo (append ":" (t.trim version)))
      × (image_repository (append repo (append ":" (t.trim version))) ≡ repo)
unfolding workspace_image_for_version
workspace_image_for_version-retagged t repo tag digest version hr whole ht hv given =
    let tagged = image_repository-pinned repo tag digest hr ht.0 ht.1 ht.2 in
    (
      rw (given, tagged.0) refl,
      rw (given, image_repository-digest repo digest hr whole) refl,
      rw (given, tagged.1) refl,
      (image_repository-pinned repo (t.trim version) digest hr hv.0 hv.1 hv.2).0,
    )
