-- ===== src/Editor/Line.antt =====
-- The editor's state and the operations of kernel/shell/editor.c that do not draw. A char array is a
-- function of the index; the theorems bound the indices.
use jcos.Prelude.{
  ℕ, zero, suc, ◌+◌, ◌-◌, ◌%◌, Bool, true, false, not, ◌&&◌, ◌||◌, Option, none, ltb, leb, ◌==◌,
  if◌then◌else◌, nonzero, sub32,
}

-- SHELL_EDITOR_CAPACITY
abbrev pub capacity : ℕ
capacity = 128

-- SHELL_HISTORY_CAPACITY
abbrev pub history_capacity : ℕ
history_capacity = 64

-- `history_offset` is `none` where the source has -1.
pub record ShellEditor : Type 0 where
  pub buffer : ℕ → ℕ
  pub length : ℕ
  pub cursor : ℕ
  pub rendered_length : ℕ
  pub rendered_cursor : ℕ
  pub history : ℕ → ℕ → ℕ
  pub history_count : ℕ
  pub history_next : ℕ
  pub history_offset : Option ℕ
  pub draft : ℕ → ℕ
  pub draft_length : ℕ
  pub draft_saved : Bool
  pub selection_active : Bool
  pub selection_anchor : ℕ
  pub clipboard : ℕ → ℕ
  pub clipboard_length : ℕ

abbrev pub store {ℓ} : {A : Type ℓ} → (ℕ → A) → ℕ → A → ℕ → A
store m i v j = if i == j then v else m j

-- The loop of `copy_line` from index `i` on, with room for `left` characters and the terminator.
unfoldable pub copy_from : (dst src : ℕ → ℕ) → (left i : ℕ) → ℕ → ℕ
copy_from dst src zero i = store dst i 0
copy_from dst src (suc left) i =
    let rest = copy_from (store dst i (src i)) src left (i + 1) in
    if nonzero (src i) then rest else store dst i 0

unfoldable pub copy_line : (dst src : ℕ → ℕ) → ℕ → ℕ
unfolding copy_from
copy_line dst src = copy_from dst src (capacity - 1) 0

-- `k_strlen` of kernel/lib.c from index `i` on, with fuel.
unfoldable pub strlen_from : (ℕ → ℕ) → ℕ → ℕ → ℕ
strlen_from s zero i = i
strlen_from s (suc fuel) i =
    let rest = strlen_from s fuel (i + 1) in if nonzero (s i) then rest else i

-- A line ends within its array, so the capacity is fuel enough.
unfoldable pub k_strlen : (ℕ → ℕ) → ℕ
unfolding strlen_from
k_strlen s = strlen_from s capacity 0

-- `k_streq` of kernel/lib.c from index `i` on, with fuel.
unfoldable pub streq_from : (ℕ → ℕ) → (ℕ → ℕ) → ℕ → ℕ → Bool
streq_from a b zero i = a i == b i
streq_from a b (suc fuel) i =
    let rest = streq_from a b fuel (i + 1) in
    if nonzero (a i) && nonzero (b i)
    then (if not (a i == b i) then false else rest)
    else a i == b i

unfoldable pub k_streq : (ℕ → ℕ) → (ℕ → ℕ) → Bool
unfolding streq_from
k_streq a b = streq_from a b capacity 0

abbrev pub selection_start : ShellEditor → ℕ
selection_start e = if ltb e.cursor e.selection_anchor then e.cursor else e.selection_anchor

abbrev pub selection_end : ShellEditor → ℕ
selection_end e = if ltb e.selection_anchor e.cursor then e.cursor else e.selection_anchor

unfoldable pub selected_at : ShellEditor → ℕ → Bool
selected_at e i =
    if not e.selection_active then false else leb (selection_start e) i && ltb i (selection_end e)

abbrev pub clear_selection : ShellEditor → ShellEditor
clear_selection e = record e { selection_active = false; selection_anchor = e.cursor }

abbrev pub leave_history : ShellEditor → ShellEditor
leave_history e = record e { history_offset = none; draft_saved = false }

abbrev newest : ShellEditor → ℕ
newest e = (e.history_next + history_capacity - 1) % history_capacity

unfoldable pub history_store : ShellEditor → ShellEditor
unfolding k_streq copy_line
history_store e =
    if not (nonzero e.length)
    then e
    else if nonzero e.history_count && k_streq (e.history (newest e)) e.buffer
    then e
    else record e {
      history = store e.history e.history_next (copy_line (e.history e.history_next) e.buffer);
      history_next = (e.history_next + 1) % history_capacity;
      history_count =
          if ltb e.history_count history_capacity then e.history_count + 1 else e.history_count;
    }

-- The index arithmetic is on u32, where the sum does not wrap for an offset below the capacity.
abbrev pub history_index : ShellEditor → ℕ → ℕ
history_index e offset = sub32 (e.history_next + history_capacity - 1) offset % history_capacity

-- The loop of `delete_range`, from index `i` on.
unfoldable pub shift_down : (ℕ → ℕ) → (count left i : ℕ) → ℕ → ℕ
shift_down buffer count zero i = buffer
shift_down buffer count (suc left) i =
    shift_down (store buffer i (buffer (i + count))) count left (i + 1)

unfoldable pub delete_range : ShellEditor → ℕ → ℕ → ShellEditor
unfolding shift_down
delete_range e start end =
    if leb end start || ltb e.length end
    then e
    else leave_history (
        clear_selection (record e {
          buffer = shift_down e.buffer (end - start) (e.length + 1 - end) start;
          length = e.length - (end - start);
          cursor = start;
        }))

unfoldable pub delete_selection : ShellEditor → ShellEditor × Bool
unfolding delete_range
delete_selection e =
    if not e.selection_active
    then (e, false)
    else (delete_range e (selection_start e) (selection_end e), true)

-- The first loop of `insert_bytes`, downwards from index `i`.
unfoldable pub shift_up : (ℕ → ℕ) → (count left i : ℕ) → ℕ → ℕ
shift_up buffer count zero i = buffer
shift_up buffer count (suc left) i =
    shift_up (store buffer (i + count - 1) (buffer (i - 1))) count left (i - 1)

-- The second loop of `insert_bytes`, from byte `i` on.
unfoldable pub put_bytes : (buffer bytes : ℕ → ℕ) → (at left i : ℕ) → ℕ → ℕ
put_bytes buffer bytes at zero i = buffer
put_bytes buffer bytes at (suc left) i =
    put_bytes (store buffer (at + i) (bytes i)) bytes at left (i + 1)

-- The stores of `insert_bytes`, `count` clamped to the room.
unfoldable pub insert_clamped : ShellEditor → (ℕ → ℕ) → ℕ → ShellEditor
unfolding shift_up put_bytes
insert_clamped e bytes count =
    let moved = shift_up e.buffer count (e.length - e.cursor) e.length in
    let placed = put_bytes moved bytes e.cursor count 0 in
    leave_history (
      clear_selection (record e {
        buffer = store placed (e.length + count) 0;
        cursor = e.cursor + count;
        length = e.length + count;
      }))

-- `available` before the clamp.
abbrev pub available : ShellEditor → ℕ
available e = sub32 (capacity - 1) e.length

-- The loop of `copy_selection_or_line`.
unfoldable pub copy_out : (dst src : ℕ → ℕ) → (start left i : ℕ) → ℕ → ℕ
copy_out dst src start zero i = dst
copy_out dst src start (suc left) i =
    copy_out (store dst i (src (start + i))) src start left (i + 1)

unfoldable pub copy_selection_or_line : ShellEditor → ShellEditor
unfolding copy_out
copy_selection_or_line e =
    let start = if e.selection_active then selection_start e else 0 in
    let end = if e.selection_active then selection_end e else e.length in
    let count = if leb capacity (end - start) then capacity - 1 else end - start in
    record e {
      clipboard = store (copy_out e.clipboard e.buffer start count 0) count 0;
      clipboard_length = count;
    }

-- The stores of `cut_selection_or_line` before it draws.
unfoldable pub cut : ShellEditor → ShellEditor
unfolding copy_selection_or_line delete_selection
cut e =
    let c = copy_selection_or_line e in
    if c.selection_active
    then (delete_selection c).0
    else leave_history
        (clear_selection (record c { buffer = store c.buffer 0 0; length = 0; cursor = 0 }))

abbrev pub selection_begin_if_needed : ShellEditor → ShellEditor
selection_begin_if_needed e =
    if e.selection_active then e else record e { selection_anchor = e.cursor }

abbrev pub selection_finish_move : ShellEditor → ShellEditor
selection_finish_move e = record e { selection_active = not (e.cursor == e.selection_anchor) }

-- `k_memset(editor, 0, …)` and the offset.
unfoldable pub shell_editor_init : ShellEditor
shell_editor_init = record {
  buffer = λ _. 0;
  length = 0;
  cursor = 0;
  rendered_length = 0;
  rendered_cursor = 0;
  history = λ _ _. 0;
  history_count = 0;
  history_next = 0;
  history_offset = none;
  draft = λ _. 0;
  draft_length = 0;
  draft_saved = false;
  selection_active = false;
  selection_anchor = 0;
  clipboard = λ _. 0;
  clipboard_length = 0;
}

unfoldable pub shell_editor_reset_line : ShellEditor → ShellEditor
shell_editor_reset_line e = clear_selection (record e {
  buffer = store e.buffer 0 0;
  length = 0;
  cursor = 0;
  rendered_length = 0;
  rendered_cursor = 0;
  history_offset = none;
  draft_saved = false;
  draft_length = 0;
})

-- The line that is returned, and the editor with its terminator written.
unfoldable pub shell_editor_line : ShellEditor → ShellEditor × (ℕ → ℕ)
shell_editor_line e =
    let buffer = store e.buffer e.length 0 in (record e { buffer = buffer }, buffer)
