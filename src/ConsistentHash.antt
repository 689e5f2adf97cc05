-- ===== src/ConsistentHash.antt =====
-- consistent_hash/chash.cpp: the class hash, a ring of 16384 virtual nodes. What it calls of lbase is
-- a parameter.
pub mod Slots
pub mod Owner
pub mod Fill
pub mod Flush
pub mod Loops
pub mod Addition
pub mod Removal
pub mod Consistent
pub mod Reached
pub mod Location
use Prim.Native.Char.{Char, code}
use Prim.Native.String.{String, [] as empty, ◌∷◌ as character, ◌++◌}
use text.Mathlib.Text.{◌==◌ as same_text}
use sample_code.Common.{
  ℕ, zero, suc, ◌+◌, ◌%◌, ◌^◌, ◌==◌, leb, bit_and, Bool, true, false, not, ◌&&◌, if◌then◌else◌,
  Option, none, some, List, [], ◌∷◌, ◌⊎◌, inl, inr,
}
use sample_code.Common.Outcome.{Outcome, done, fault, stuck, ◌>>=◌}

-- `enum ERROR_CODE` of error.h
pub data ErrorCode : Type 0 where
  errok : ErrorCode
  err_notok : ErrorCode
  err_exist : ErrorCode
  err_conf : ErrorCode
  err_notexist : ErrorCode

-- What is called of lbase and of the C library: `lcode::crc32`, `String::toString`, `file::exist`,
-- `load_file` (with `none` for a return of false), `splitString`, and `atoi` followed by the
-- conversion to uint32.
pub record Lbase : Type 0 where
  pub crc32 : String → ℕ
  pub to_string : ℕ → String
  pub exist : String → Bool
  pub load_file : String → Option String
  pub split_string : String → Char → List String
  pub atoi : String → ℕ

abbrev pub magic : ℕ
magic = 4294705152

abbrev pub vnode_size : ℕ
vnode_size = 262144

abbrev pub vnode_num : ℕ
vnode_num = 16384

abbrev pub node2vnode : ℕ
node2vnode = 64

-- A std::map is a function: a key that is missing has the value that operator[] gives it.
pub record Hash : Type 0 where
  pub path : String
  pub ok : Bool
  pub nodelist : String → Bool
  pub vnodelist : ℕ → String

-- `_vnodelist[vnode] = node`
abbrev pub assign : (ℕ → String) → ℕ → String → ℕ → String
assign m vnode node v = if v == vnode then node else m v

-- `_nodelist[node] = b`
abbrev pub set_listed : (String → Bool) → String → Bool → String → Bool
set_listed m node b x = if same_text x node then b else m x

-- `vnode += _VNODE_SIZE_` on uint32
abbrev pub next : ℕ → ℕ
next vnode = (vnode + vnode_size) % 2 ^ 32

-- The first loop of `flush`, with `first_vnode` as it leaves it.
unfoldable pub find_first : ℕ → ℕ → (ℕ → String) → Outcome ℕ
find_first zero vnode m = stuck
find_first (suc fuel) vnode m = elim (leb vnode magic) [
  | false ↦ done 0
  | true ↦ elim (not (same_text (m vnode) "")) [
    | true ↦ done vnode
    | false ↦ elim (vnode == magic) [ true ↦ done 0 | false ↦ find_first fuel (next vnode) m ]
  ]
]

-- The second loop of `flush`.
unfoldable pub fill : ℕ → ℕ → ℕ → ℕ → (ℕ → String) → Outcome (ℕ → String)
fill zero first tmp vnode m = stuck
fill (suc fuel) first tmp vnode m = elim (leb vnode magic) [
  | false ↦ done m
  | true ↦ elim (vnode == first) [
    | true ↦ done m
    | false ↦ elim (not (same_text (m vnode) "")) [
      | true ↦ fill fuel first vnode (next vnode) m
      | false ↦ fill fuel first tmp (next vnode) (assign m vnode (m tmp))
    ]
  ]
]

unfoldable pub flush : Hash → Outcome (ErrorCode × Hash)
flush s = do
  first ← find_first vnode_num 0 s.vnodelist
  elim (same_text (s.vnodelist first) "") [
    | true ↦ done (err_conf, s)
    | false ↦ fill vnode_num first first (next first) s.vnodelist >>= λ m.
        done (errok, record s { vnodelist = m })
  ]

-- The last loop of `removeServerLL`.
unfoldable pub clean : ℕ → ℕ → String → (ℕ → String) → Outcome (ℕ → String)
clean zero vnode node m = stuck
clean (suc fuel) vnode node m = elim (leb vnode magic) [
  | false ↦ done m
  | true ↦
      let m' = if same_text (m vnode) node then assign m vnode "" else m in
      elim (vnode == magic) [ true ↦ done m' | false ↦ clean fuel (next vnode) node m' ]
]

-- `if(rc != ERROK) return rc; return flush();`
abbrev flush_after : ErrorCode × Hash → Outcome (ErrorCode × Hash)
flush_after (errok, s) = flush s
flush_after (rc, s) = done (rc, s)

-- The lines of the file that name a server.
unfoldable pub server_lines : List String → List String
server_lines [] = []
server_lines (empty ∷ v) = server_lines v
server_lines (character c line ∷ v) =
    if code c == code "#" then server_lines v else character c line ∷ server_lines v

module _ (lbase : Lbase) where
  -- `crc32(node + toString(i)) & _MAGIC_`
  unfoldable pub vnode_of : String → ℕ → ℕ
  vnode_of node i = bit_and (lbase.crc32 (node ++ lbase.to_string i)) magic

  -- The loops of `addServerLL` and `removeServerLL` over the virtual nodes of `node`, with `n` turns
  -- left; `value` is what they store.
  unfoldable pub store : ℕ → ℕ → String → String → (ℕ → String) → ℕ → String
  store zero i node value m = m
  store (suc n) i node value m = store n (i + 1) node value (assign m (vnode_of node i) value)

  unfoldable pub add_server_ll : String → Hash → ErrorCode × Hash
  add_server_ll node s =
      if same_text node "" then (err_notok, s) else if s.nodelist node then (err_exist, s) else (
        errok,
        record s {
          nodelist = set_listed s.nodelist node true;
          vnodelist = store node2vnode 0 node node s.vnodelist;
        },
      )

  unfoldable pub remove_server_ll : String → Hash → Outcome (ErrorCode × Hash)
  remove_server_ll node s = elim (same_text node "") [
    | true ↦ done (err_notok, s)
    | false ↦ elim (s.nodelist node) [
      | false ↦ done (err_notexist, s)
      | true ↦ clean vnode_num 0 node (store node2vnode 0 node "" s.vnodelist) >>= λ m.
          done (errok, record s { nodelist = set_listed s.nodelist node false; vnodelist = m })
    ]
  ]

  unfoldable pub add_server : String → Hash → Outcome (ErrorCode × Hash)
  add_server node s = flush_after (add_server_ll node s)

  unfoldable pub remove_server : String → Hash → Outcome (ErrorCode × Hash)
  remove_server node s = remove_server_ll node s >>= flush_after

  unfoldable pub add_all : List String → Hash → Hash
  add_all [] s = s
  add_all (node ∷ nodelist) s = add_all nodelist (add_server_ll node s).1

  unfoldable pub construct : String → Outcome Hash
  construct confpath =
      let s : Hash = record {
        path = confpath;
        ok = false;
        nodelist = λ x. false;
        vnodelist = λ v. "";
      } in
      elim (lbase.load_file confpath) [
        | none ↦ done s
        | some text ↦ elim (server_lines (lbase.split_string text "\n")) [
          | [] ↦ done s
          | node ∷ nodelist ↦
              flush (add_all (node ∷ nodelist) s) >>= λ (rc, t). done (record t { ok = true })
        ]
      ]

  -- The error code, or the address that is written to `ip` and `port`.
  unfoldable pub location : String → Hash → ErrorCode ⊎ String × ℕ
  location key s =
      let node = s.vnodelist (bit_and (lbase.crc32 key) magic) in
      if not s.ok
      then inl err_conf
      else if not (lbase.exist s.path)
      then inl err_conf
      else if same_text node ""
      then inl err_conf
      else elim (lbase.split_string node ":") [
        | ip ∷ port ∷ [] ↦ inr (ip, lbase.atoi port)
        | _ ↦ inl err_conf
      ]
