-- ===== src/Find/Walk.antt =====
-- command/internal/find/find.go, lines 243 to 299 and 325 to 460: the walk, which collects effects.
-- That a context may be cancelled between two entries is not modelled.
pub mod Step
pub mod Reported
pub mod Ends
pub mod Effects
pub mod Order
use kefka.Common.{
  ◌⊎◌, ℕ, zero, suc, ◌+◌, inl, inr, Bool, false, not, ◌&&◌, Option, none, some, List, [], ◌∷◌, ◌++◌,
  ltb, leb, ◌==◌, if◌then◌else◌, Bytes, codes,
}
use kefka.FileMode.{has_bit, mode_symlink}
use kefka.Slashed.{join, trim_slashes, after_last_slash}
use kefka.ShellPath.{resolve_path}
use kefka.Find.Syntax.{Action, Expr}
use kefka.Find.Eval.{Platform, EvalCtx, EvalResult, eval}
use kefka.Find.Printf.Format.{PrintfData}
use kefka.Find.Filesystem.{FsError, FileInfo, DirEntry, Filesystem}
use kefka.Find.Node.{
  statted_node, Node, Reading, Walker, Start, Walked, behind, and_then, join_display, new_node,
  entry_node, entries_of, nothing_listed, diagnose, acts, default_print, Evaluated, no_match,
  unless_fatal, message, not_read, walked, unfinished, read_dir,
}

module _ (p : Platform) (fs : Filesystem) (w : Walker) where
  unfoldable pub printf_data : Start → Node → PrintfData
  printf_data s n = record {
    path = n.display;
    name = n.name;
    size = elim n.info [ none ↦ 0 | some i ↦ i.size ];
    mtime = elim n.info [ none ↦ w.now | some i ↦ i.mtime ];
    mode = elim n.info [ none ↦ 420 | some i ↦ i.mode ];
    is_dir = n.is_dir;
    depth = n.depth;
    starting_point = s.start;
  }

  -- The function `isEmpty` of the entry.
  unfoldable pub is_empty : Node → PrintfData → Reading → Bool
  unfolding read_dir
  is_empty n d r =
      if n.is_file
      then d.size == 0
      else if not n.is_dir
      then false
      else nothing_listed (read_dir fs n r)

  abbrev pub eval_ctx : Node → PrintfData → Reading → EvalCtx
  eval_ctx n d r = record {
    name = n.name;
    path = n.display;
    typ = n.typ;
    is_file = n.is_file;
    is_dir = n.is_dir;
    is_empty = is_empty n d r;
    mtime = d.mtime;
    size = d.size;
    mode = d.mode;
    now = w.now;
    newer = w.newer;
  }

  abbrev pub eval_node : Option Expr → Node → PrintfData → Reading → EvalResult
  eval_node none n d r = no_match
  eval_node (some e) n d r = eval p e (eval_ctx n d r)

  unfoldable pub evaluate : Start → Node → Reading → Evaluated
  unfolding printf_data is_empty eval read_dir
  evaluate s n r =
      let d = printf_data s n in
      let res = eval_node w.opts.expr n d r in
      let reached : List Action =
        if not w.has_action && res.matches then default_print else res.actions in
      if ltb n.depth w.opts.min_depth
      then record { effects = []; pruned = false; reading = r }
      else record {
        effects = acts reached n.fs_path d;
        pruned = res.pruned;
        reading = if res.asks_empty && not n.is_file && n.is_dir then read_dir fs n r else r;
      }

  unfoldable pub other_device : Start → Node → Bool
  other_device s n = w.opts.xdev && elim s.start_dev [
    | none ↦ false
    | some d ↦ elim n.info [
      | none ↦ false
      | some i ↦ elim i.device [ none ↦ false | some e ↦ not (e == d) ]
    ]
  ]

  abbrev pub at_max : Node → Bool
  at_max n = elim w.opts.max_depth [ none ↦ false | some k ↦ leb k n.depth ]

  -- The node of an entry; `none` where the entry is gone between listing and stat.
  unfoldable pub child : Node → DirEntry → Option Node
  unfolding join_display join new_node
  child n entry =
      let display = join_display n.display entry.name in
      let path = join n.fs_path entry.name in
      let statted = statted_node display path entry.name (n.depth + 1) (fs.lstat path) in
      if w.needs_stat then statted else some (entry_node display path (n.depth + 1) entry)

  unfoldable pub visit_children : (Node → Walked) → Node → List DirEntry → Walked
  unfolding child and_then
  visit_children visit n [] = walked []
  visit_children visit n (entry ∷ entries) = elim (child n entry) [
    | none ↦ visit_children visit n entries
    | some c ↦ and_then (visit c) (visit_children visit n entries)
  ]

  -- The part of `visit` under -depth.
  unfoldable pub visit_after : (Node → Walked) → Start → Node → Walked
  unfolding visit_children evaluate read_dir other_device unless_fatal diagnose and_then
  visit_after visit s n =
      let descend = n.is_dir && not (at_max n) && not (other_device s n) in
      let reading = if descend then read_dir fs n not_read else not_read in
      let below = if descend then visit_children visit n (entries_of reading) else walked [] in
      let e = evaluate s n reading in
      and_then below (unless_fatal n e.reading (walked (diagnose n e.reading ++ e.effects)))

  unfoldable pub visit_before : (Node → Walked) → Start → Node → Walked
  unfolding visit_children evaluate read_dir other_device unless_fatal diagnose behind
  visit_before visit s n =
      let e = evaluate s n not_read in
      let descend = n.is_dir && not e.pruned && not (at_max n) && not (other_device s n) in
      let reading = if descend then read_dir fs n e.reading else e.reading in
      let below = if descend then visit_children visit n (entries_of reading) else walked [] in
      unless_fatal n reading (behind (e.effects ++ diagnose n reading) below)

  -- `visit`, on fuel for the depth of the directories below.
  unfoldable pub visit : ℕ → Start → Node → Walked
  unfolding visit_after visit_before
  visit zero s n = unfinished
  visit (suc f) s n =
      let after = visit_after (visit f s) s n in
      let before = visit_before (visit f s) s n in if w.opts.depth_first then after else before

  -- the node of a starting point
  unfoldable pub start_node : Bytes → FileInfo → Node
  unfolding new_node resolve_path trim_slashes after_last_slash
  start_node start info =
      let trimmed = trim_slashes start in
      let name : Bytes = elim trimmed [ [] ↦ codes "/" | c ∷ s ↦ after_last_slash (c ∷ s) ] in
      new_node start (resolve_path w.dir start) name 0 info

  -- -H follows a starting point that is a symbolic link, unless it dangles.
  unfoldable pub followed : Bytes → FileInfo → FileInfo
  followed path info =
      let target : FileInfo = elim (fs.stat path) [ inl err ↦ info | inr target ↦ target ] in
      if w.follow_start && has_bit info.mode mode_symlink then target else info

  -- the walk from a starting point that Lstat found or not
  abbrev pub walk_found : ℕ → Bytes → FsError ⊎ FileInfo → Walked
  walk_found f start (inl err) =
      walked (message (codes "find: " ++ start ++ codes ": No such file or directory\n") ∷ [])
  walk_found f start (inr info) =
      let i = followed (resolve_path w.dir start) info in
      visit f (record { start = start; start_dev = i.device }) (start_node start i)

  unfoldable pub walk_start : ℕ → Bytes → Walked
  unfolding visit start_node followed resolve_path
  walk_start f start = walk_found f start (fs.lstat (resolve_path w.dir start))

  -- The loop over the starting points.
  unfoldable pub walk_starts : ℕ → List Bytes → Walked
  unfolding walk_start and_then
  walk_starts f [] = walked []
  walk_starts f (start ∷ starts) = and_then (walk_start f start) (walk_starts f starts)
