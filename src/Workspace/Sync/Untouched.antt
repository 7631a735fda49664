-- ===== src/Workspace/Sync/Untouched.antt =====
-- What syncWorkspaceSource and copyPath of internal/ops/ops.go leave alone.
use aw_remote_host.Common.{
  ok, err, String, ◌≡◌, Bool-cases, Result, inl, inr, false, Option, none, some, List,
}
use aw_remote_host.Workspace.Sync.{
  Node, Entries, Disk, is_kept, failing, then_do, copy_path, copy_entries, replace_entry,
  written_first, go_on, sync_workspace_source, unreadable, file, link, folder, not_listed, end,
  entry, CopyError, not_removed, not_made, not_linked, not_copied,
}

-- The paths at and below a root.
pub data Under (join : String → String → String) (root : String) : String → Type 0 where
  here : Under join root root
  below : {p : String} (name : String) → Under join root p → Under join root (join p name)

module _ {World : Type 0} (d : Disk World) (Q : World → Type 0) where
  open d use {join, remove_all, mkdir_all, symlink, copy_file}

  -- No call on this path changes whether `Q` holds from true to false.
  pub record Spares (p : String) : Type 0 where
    pub removing : (w : World) → Q w → Q (remove_all p w).0
    pub making : (w : World) → Q w → Q (mkdir_all p w).0
    pub linking : (target : String) (w : World) → Q w → Q (symlink target p w).0
    pub copying : (src : String) (w : World) → Q w → Q (copy_file src p w).0

  -- Everything at and below each entry that is replaced spares `Q`.
  abbrev pub SparesShipped : Entries → String → Type 0
  SparesShipped (not_listed e) dst = Unit
  SparesShipped end dst = Unit
  SparesShipped (entry name node rest) dst =
      (is_kept name ≡ false → (p : String) → Under join (join dst name) p → Spares p)
      × SparesShipped rest dst

  failing-Keeps :
      (wrap : String → CopyError) (o : World × Option String) → Q o.0 → Q (failing wrap o).0
  failing-Keeps wrap (w, none) q = q
  failing-Keeps wrap (w, some e) q = q

  then_do-Keeps :
      (o : World × Result CopyError (Unit {0})) (next : World → World × Result CopyError (Unit {0}))
      → Q o.0
      → ((w : World) → Q w → Q (next w).0)
      → Q (then_do o next).0
  then_do-Keeps (w, ok _) next q step = step w q
  then_do-Keeps (w, err e) next q step = q

  mutual
    unfolding copy_path copy_entries

    copy_path-keeps :
        (n : Node) (root src dst : String)
        → ((p : String) → Under join root p → Spares p)
        → Under join root dst
        → (w : World) → Q w
        → Q (copy_path d n src dst w).0
    copy_path-keeps (unreadable e) root src dst safe u w q = q
    copy_path-keeps file root src dst safe u w q =
        failing-Keeps (not_copied dst) (copy_file src dst w) ((safe dst u).copying src w q)
    copy_path-keeps (link (err e)) root src dst safe u w q = q
    copy_path-keeps (link (ok target)) root src dst safe u w q =
        failing-Keeps (not_linked dst) (symlink target dst w) ((safe dst u).linking target w q)
    copy_path-keeps (folder entries) root src dst safe u w q =
        then_do-Keeps (failing (not_made dst) (mkdir_all dst w)) (copy_entries d entries src dst)
          (failing-Keeps (not_made dst) (mkdir_all dst w) ((safe dst u).making w q))
          (copy_entries-keeps entries root src dst safe u)

    copy_entries-keeps :
        (es : Entries) (root src dst : String)
        → ((p : String) → Under join root p → Spares p)
        → Under join root dst
        → (w : World) → Q w
        → Q (copy_entries d es src dst w).0
    copy_entries-keeps (not_listed e) root src dst safe u w q = q
    copy_entries-keeps end root src dst safe u w q = q
    copy_entries-keeps (entry name node rest) root src dst safe u w q =
        then_do-Keeps (copy_path d node (join src name) (join dst name) w)
          (copy_entries d rest src dst)
          (copy_path-keeps node root (join src name) (join dst name) safe (below name u) w q)
          (copy_entries-keeps rest root src dst safe u)

  replace_entry-keeps :
      (n : Node) (src dst : String)
      → ((p : String) → Under join dst p → Spares p)
      → (w : World) → Q w
      → Q (replace_entry d n src dst w).0
  unfolding replace_entry
  replace_entry-keeps n src dst safe w q =
      then_do-Keeps (failing (not_removed dst) (remove_all dst w)) (copy_path d n src dst)
        (failing-Keeps (not_removed dst) (remove_all dst w) ((safe dst here).removing w q))
        (copy_path-keeps n dst src dst safe here)

  written_first-Keeps :
      (dst : String) (o : World × Result CopyError (List String))
      → Q o.0
      → Q (written_first d dst o).0
  written_first-Keeps dst (w, ok ps) q = q
  written_first-Keeps dst (w, err e) q = q

  go_on-Keeps :
      (dst : String) (o : World × Result CopyError (Unit {0}))
      (rest : World → World × Result CopyError (List String))
      → Q o.0
      → ((w : World) → Q w → Q (rest w).0)
      → Q (go_on d dst o rest).0
  go_on-Keeps dst (w, ok _) rest q step = written_first-Keeps dst (rest w) (step w q)
  go_on-Keeps dst (w, err e) rest q step = q

  -- The sync touches nothing but the entries that the image ships, and not those of them that hold
  -- the state of the workspace: what no call at or below a replaced entry spoils still holds behind
  -- it, whether it ends with an error or without.
  pub sync_workspace_source-untouched :
      (es : Entries) (src dst : String) (w : World)
      → SparesShipped es dst
      → Q w
      → Q (sync_workspace_source d es src dst w).0
  unfolding sync_workspace_source
  sync_workspace_source-untouched (not_listed e) src dst w safe q = q
  sync_workspace_source-untouched end src dst w safe q = q
  sync_workspace_source-untouched (entry name node rest) src dst w safe q =
      elim (Bool-cases (is_kept name)) [
        | inl e ↦ rw e (sync_workspace_source-untouched rest src dst w safe.1 q)
        | inr e ↦ rw e (
            go_on-Keeps (join dst name) (replace_entry d node (join src name) (join dst name) w)
              (sync_workspace_source d rest src dst)
              (replace_entry-keeps node (join src name) (join dst name) (safe.0 e) w q)
              (λ w' q'. sync_workspace_source-untouched rest src dst w' safe.1 q'))
      ]
