-- ===== src/Datastore.antt =====
-- `pgstrom_create_kern_parambuf` of datastore.c: the parameters of a device program in one buffer, the
-- offsets of their values first, as `kern_parambuf` of opencl_common.h lays them out. A StringInfo is
-- its length and its bytes. What PostgreSQL says of an expression node and the bytes that are copied
-- from it are the data of the node; a result `none` is an error that the code or the
-- StringInfo raises.
pub mod Params
use pg_strom.Prelude.{
  ℕ, suc, ◌+◌, ◌-◌, ◌*◌, ◌%◌, ◌^◌, Bool, true, false, not, ◌&&◌, ◌||◌, ◌==◌, if◌then◌else◌, ltb,
  leb, update, Option, none, some, List, [], ◌∷◌, length,
}
use pg_strom.Prelude.Run.{Run, done, fault, check, ◌>>=◌, ◌>>◌}
use pg_strom.Tcache.Rowstore.{typealign, stromalign_len}

-- A Const; a Param, with whether its number is one of the parameters given, whether its type is valid
-- then and the one of the plan, and whether `get_typlen` knows it; any other node.
pub data ParamNode : Type 0 where
  const_node : Bool → List ℕ → ParamNode
  param_node : Bool → Bool → Bool → Bool → Bool → List ℕ → ParamNode
  other_node : ParamNode

-- The StringInfo with the offsets in it, and `index`.
pub record Parambuf : Type 0 where
  pub len : ℕ
  pub data_at : ℕ → ℕ
  pub poffset : ℕ → ℕ
  pub index : ℕ

abbrev pub stromalign : ℕ → ℕ
stromalign = typealign stromalign_len

-- The byte at a place of a list, and what was there before it elsewhere.
abbrev pub byte_at : List ℕ → ℕ → ℕ → ℕ
byte_at [] i old = old
byte_at (b ∷ bytes) i old = let rest = byte_at bytes (i - 1) old in if i == 0 then b else rest

-- The bytes behind those of the buffer.
abbrev pub put_bytes : List ℕ → Parambuf → Parambuf
put_bytes bytes s = record s {
  len = s.len + length bytes;
  data_at = λ k. if leb s.len k then byte_at bytes (k - s.len) (s.data_at k) else s.data_at k;
}

abbrev pub set_poffset : ℕ → Parambuf → Parambuf
set_poffset offset s = record s { poffset = update s.poffset s.index offset }

abbrev pub pad : Parambuf → Parambuf
pad s = record s { len = stromalign s.len; index = suc s.index }

-- `limit` is the length that `enlargeStringInfo` refuses to reach, with an error.
module _ (limit : ℕ) where
  -- `appendBinaryStringInfo`.
  unfoldable pub append_bytes : List ℕ → Parambuf → Option Parambuf
  append_bytes bytes s = if ltb (s.len + length bytes) limit then some (put_bytes bytes s) else none

  -- The end of a round: padding, whose bytes are not set, up to the alignment.
  unfoldable pub align_next : Parambuf → Option Parambuf
  align_next s =
      if (stromalign s.len == s.len) || ltb (stromalign s.len) limit then some (pad s) else none

  abbrev pub align_after : Option Parambuf → Option Parambuf
  align_after none = none
  align_after (some s) = align_next s

  -- One round of the loop.
  unfoldable pub append_param : ParamNode → Parambuf → Option Parambuf
  append_param (const_node isnull bytes) s =
      if isnull
      then align_next (set_poffset 0 s)
      else align_after (append_bytes bytes (set_poffset (s.len % 2 ^ 32) s))
  append_param (param_node given valid same_type isnull known bytes) s =
      if not given
      then align_next s
      else if not valid
      then some (set_poffset 0 s)
      else if not same_type
      then none
      else if isnull
      then align_next (set_poffset 0 s)
      else if not known
      then none
      else align_after (append_bytes bytes s)
  append_param other_node s = none

  unfoldable pub append_params : List ParamNode → Parambuf → Option Parambuf
  append_params [] s = some s
  append_params (n ∷ nodes) s = elim (append_param n s) [
    | none ↦ none
    | some s' ↦ append_params nodes s'
  ]

-- The buffer with its `length` and `nparams`.
abbrev pub finish_parambuf : ℕ → Option Parambuf → Run (Option (Parambuf × ℕ × ℕ))
finish_parambuf nparams none = done none
finish_parambuf nparams (some s) =
    check (stromalign s.len == s.len) >> done (some (s, s.len, nparams))

-- `fresh` is the memory of the StringInfo.
abbrev pub start_parambuf : ℕ → Parambuf → Parambuf
start_parambuf nparams fresh = record fresh { len = stromalign (8 + 4 * nparams); index = 0 }

unfoldable pub create_kern_parambuf :
    ℕ → List ParamNode → Parambuf → Run (Option (Parambuf × ℕ × ℕ))
create_kern_parambuf limit used_params fresh =
    let nparams = length used_params in
    let start = start_parambuf nparams fresh in
    finish_parambuf nparams
      (if ltb start.len limit then append_params limit used_params start else none)
