-- ===== src/Workspace/Sync.antt =====
-- syncWorkspaceSource and copyPath of internal/ops/ops.go: the source tree of an image is copied
-- over the one of the host. The staged tree is given as ReadDir, Lstat and Readlink show it.
pub mod Untouched
use aw_remote_host.Common.{
  Result, ok, err, String, Bool, Option, none, some, List, [], ◌∷◌, str_eq, ◌||◌, if◌then◌else◌,
}

-- What stands at a path: something that Lstat cannot read, a file, a link with what Readlink says,
-- or a directory, of which the entries are read or are not.
mutual
  pub data Node : Type 0 where
    unreadable : String → Node
    file : Node
    link : Result String String → Node
    folder : Entries → Node

  pub data Entries : Type 0 where
    not_listed : String → Entries
    end : Entries
    entry : String → Node → Entries → Entries

pub data CopyError : Type 0 where
  not_read : String → CopyError
  not_removed : String → String → CopyError
  not_made : String → String → CopyError
  not_linked : String → String → CopyError
  not_copied : String → String → CopyError

-- The calls that change files, each with its error: os.RemoveAll, os.MkdirAll, os.Symlink, and the
-- copy of a file's content (Open, OpenFile, io.Copy and Close); filepath.Join.
pub record Disk (World : Type 0) : Type 0 where
  pub join : String → String → String
  pub remove_all : String → World → World × Option String
  pub mkdir_all : String → World → World × Option String
  pub symlink : String → String → World → World × Option String
  pub copy_file : String → String → World → World × Option String

abbrev pub is_kept : String → Bool
is_kept name =
    str_eq name ".aw-workspace"
    || (str_eq name "apps"
        || (str_eq name ".claude"
            || (str_eq name ".claude.json"
                || (str_eq name ".codex" || (str_eq name ".copilot" || str_eq name ".cursor")))))

abbrev pub failing {ℓ} :
    {W : Type ℓ} → (String → CopyError) → W × Option String → W × Result CopyError (Unit {0})
failing wrap (w, none) = (w, ok tt)
failing wrap (w, some e) = (w, err (wrap e))

-- The second step, if the first one succeeded.
abbrev pub then_do {ℓ} :
    {W : Type ℓ}
    → W × Result CopyError (Unit {0})
    → (W → W × Result CopyError (Unit {0}))
    → W × Result CopyError (Unit {0})
then_do (w, ok _) next = next w
then_do (w, err e) next = (w, err e)

module _ {World : Type 0} (d : Disk World) where
  open d use {join, remove_all, mkdir_all, symlink, copy_file}

  unfoldable mutual
    -- copyPath.
    pub copy_path : Node → String → String → World → World × Result CopyError (Unit {0})
    copy_path (unreadable e) src dst w = (w, err (not_read e))
    copy_path file src dst w = failing (not_copied dst) (copy_file src dst w)
    copy_path (link (err e)) src dst w = (w, err (not_read e))
    copy_path (link (ok target)) src dst w = failing (not_linked dst) (symlink target dst w)
    copy_path (folder entries) src dst w =
        then_do (failing (not_made dst) (mkdir_all dst w)) (copy_entries entries src dst)

    -- The loop of copyPath.
    pub copy_entries : Entries → String → String → World → World × Result CopyError (Unit {0})
    copy_entries (not_listed e) src dst w = (w, err (not_read e))
    copy_entries end src dst w = (w, ok tt)
    copy_entries (entry name node rest) src dst w =
        then_do (copy_path node (join src name) (join dst name) w) (copy_entries rest src dst)

  -- One entry of syncWorkspaceSource.
  unfoldable pub replace_entry :
      Node → String → String → World → World × Result CopyError (Unit {0})
  replace_entry node src dst w =
      then_do (failing (not_removed dst) (remove_all dst w)) (copy_path node src dst)

  abbrev pub written_first :
      String → World × Result CopyError (List String) → World × Result CopyError (List String)
  written_first dst (w, ok written) = (w, ok (dst ∷ written))
  written_first dst (w, err e) = (w, err e)

  abbrev pub go_on :
      String
      → World × Result CopyError (Unit {0})
      → (World → World × Result CopyError (List String))
      → World × Result CopyError (List String)
  go_on dst (w, ok _) rest = written_first dst (rest w)
  go_on dst (w, err e) rest = (w, err e)

  -- syncWorkspaceSource.
  unfoldable pub sync_workspace_source :
      Entries → String → String → World → World × Result CopyError (List String)
  sync_workspace_source (not_listed e) src dst w = (w, err (not_read e))
  sync_workspace_source end src dst w = (w, ok [])
  sync_workspace_source (entry name node rest) src dst w =
      let later = sync_workspace_source rest src dst in
      if is_kept name
      then later w
      else go_on (join dst name) (replace_entry node (join src name) (join dst name) w) later
