-- ===== src/Bitcoin/Script.antt =====
-- What bitcoin/contracts.py and bitcoin/interpreter.py take from python-bitcoinlib's script module:
-- the opcodes, and a script as the list of items that `list(CScript(…))` yields.
use unito_blockchain_25_26_p.Base.{
  ℕ, ◌-◌, ◌&&◌, List, [], ◌∷◌, Bytes, leb, nat_beq, if◌then◌else◌, map, ◌≡◌,
}
use unito_blockchain_25_26_p.Base.Int.{ℤ, pos, negsuc}

-- An item of a script: an opcode (`CScriptOp`), pushed data (`bytes`), or a plain `int`.
pub data Op : Type 0 where
  code : ℕ → Op
  push : Bytes → Op
  int : ℤ → Op

abbrev pub Script : Type 0
Script = List Op

abbrev pub op_0 : ℕ
op_0 = 0x00

abbrev pub op_1 : ℕ
op_1 = 0x51

abbrev pub op_2 : ℕ
op_2 = 0x52

abbrev pub op_16 : ℕ
op_16 = 0x60

abbrev pub op_if : ℕ
op_if = 0x63

abbrev pub op_notif : ℕ
op_notif = 0x64

abbrev pub op_else : ℕ
op_else = 0x67

abbrev pub op_endif : ℕ
op_endif = 0x68

abbrev pub op_2drop : ℕ
op_2drop = 0x6d

abbrev pub op_ifdup : ℕ
op_ifdup = 0x73

abbrev pub op_drop : ℕ
op_drop = 0x75

abbrev pub op_dup : ℕ
op_dup = 0x76

abbrev pub op_equal : ℕ
op_equal = 0x87

abbrev pub op_equalverify : ℕ
op_equalverify = 0x88

abbrev pub op_ripemd160 : ℕ
op_ripemd160 = 0xa6

abbrev pub op_sha256 : ℕ
op_sha256 = 0xa8

abbrev pub op_hash160 : ℕ
op_hash160 = 0xa9

abbrev pub op_hash256 : ℕ
op_hash256 = 0xaa

abbrev pub op_checksig : ℕ
op_checksig = 0xac

abbrev pub op_checksigverify : ℕ
op_checksigverify = 0xad

abbrev pub op_checkmultisig : ℕ
op_checkmultisig = 0xae

abbrev pub op_checkmultisigverify : ℕ
op_checkmultisigverify = 0xaf

abbrev pub op_checklocktimeverify : ℕ
op_checklocktimeverify = 0xb1

abbrev pub op_checksequenceverify : ℕ
op_checksequenceverify = 0xb2

-- python-bitcoinlib, as far as the scripts of the program pass through it: `encode` is the bytes of
-- `CScript(items)`, `parse` is `list(CScript(bytes))`, and `bn2vch` the number encoding that a script
-- uses for an `int` above 16.
pub record ScriptLibrary : Type 0 where
  pub encode : Script → Bytes
  pub parse : Bytes → Script
  pub bn2vch : ℤ → Bytes

-- What an item given to `CScript` reads back as: small numbers as plain ints, other numbers as pushed
-- data, an empty push as the int 0.
abbrev pub read_back : ScriptLibrary → Op → Op
read_back lib (code n) =
    if nat_beq n op_0
    then int (pos 0)
    else if leb op_1 n && leb n op_16
    then int (pos (n - 80))
    else code n
read_back lib (push []) = int (pos 0)
read_back lib (push (b ∷ bs)) = push (b ∷ bs)
read_back lib (int (pos n)) = if leb n 16 then int (pos n) else push (lib.bn2vch (pos n))
read_back lib (int (negsuc n)) = if nat_beq n 0 then code 0x4f else push (lib.bn2vch (negsuc n))

-- The documented behaviour that the program relies on: a script that was built reads back as its
-- items.
abbrev pub ReadsBack : ScriptLibrary → Script → Type 0
ReadsBack lib items = lib.parse (lib.encode items) ≡ map (read_back lib) items
