-- ===== src/Bitcoin/Tagged.antt =====
-- src/payment_communities/bitcoin/taproot.py: tagged hashes.
use Prim.Native.Char.{code}
use unito_blockchain_25_26_p.Base.{String, Bytes, [], ◌∷◌, ◌++◌}

-- `tag.encode("utf-8")`, for the tags of the code, which are ASCII.
unfoldable pub ascii : String → Bytes
ascii String.[] = []
ascii (String.◌∷◌ c text) = code c ∷ ascii text

unfoldable pub tagged_hash : (sha256 : Bytes → Bytes) → String → Bytes → Bytes
unfolding ascii
tagged_hash sha256 tag msg = sha256 (sha256 (ascii tag) ++ (sha256 (ascii tag) ++ msg))
