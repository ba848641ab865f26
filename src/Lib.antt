-- ===== src/Lib.antt =====
-- Payment Communities: off-chain payment channels on Bitcoin, with the scripts and transactions
-- that enforce them and a search for payment routes.
--
-- A channel is a ledger of two balances and of pending HTLCs; its funding output, commitments and
-- HTLC outputs are scripts, which the script machine runs when a transaction spends them; routes
-- are found over the graph of channels by their balances.
--
-- - Base: Boolean tests, equality, integers, dicts and lists over the native numbers.
-- - Errors: src/payment_communities/exceptions.py; a method that may raise returns a Result. A
--   method that changes its object returns the new object as well.
-- - Config: the constants of src/payment_communities/config.py that the modelled code reads.
-- - Domain.Policies and Domain.Predicates: src/payment_communities/domain/core/policies.py and
--   predicates.py, a specification being a data type with `is_satisfied_by` for the methods of
--   its classes.
-- - Domain.Records and Domain.Channel: src/payment_communities/domain/channel.py; `add_htlc`,
--   `redeem_htlc`, `refund_htlc`, `revoke_prior_state`, `verify_commitment_not_revoked` and
--   `close_cooperatively` are the methods of these names, and also return the contract that a
--   method writes to. `add_htlc` is the method on a contract object that the channel does not
--   hold, as the nodes call it, and `add_pending_htlc` the method on the object that the channel
--   holds under an id, where a write to the contract is one to the channel; no two channels hold
--   one contract object. Invariant has the step relation of a channel; Ledger is the abstract
--   view, two balances and who promised what on which terms under each id, Calls and Writes say
--   what the ledger sees of a channel, of a call and of a write, Answers which calls return, and
--   Implements and Refinement compare the methods with the ledger; Settlement, Refusals, Revoked
--   and Liveness have what the methods guarantee.
-- - Protocols.Revocation: src/payment_communities/protocols/revocation.py: the store of revealed
--   secrets, the revocable script and the breach remedy.
-- - Bitcoin.Numbers, Bitcoin.Script, Bitcoin.Machine, Bitcoin.Dispatch, Bitcoin.Interpreter and
--   Bitcoin.Witness: src/payment_communities/bitcoin/interpreter.py; `handle_control_flow` and
--   `dispatch_opcode` are the two halves of a turn, `run` is the loop over the operations that
--   are left, and a Python stack is a list with its top first.
-- - Bitcoin.Contracts: the scripts and witnesses of src/payment_communities/bitcoin/contracts.py.
-- - Bitcoin.Builder, Bitcoin.Signatures, Bitcoin.Verification and Bitcoin.Transaction:
--   src/payment_communities/bitcoin/transaction.py; Verify, Funded, Signing and Outputs have the
--   theorems on what the transactions of a channel do on chain.
-- - Network.Graph, Network.Queue and Network.Routing: src/payment_communities/network/routing.py;
--   the heap is a list with its smallest entry first, `turn` is one turn of the search loop and
--   `build_hops` the loop that prices a path from its end.
-- - Protocols.Shachain: src/payment_communities/protocols/shachain.py; `descend` is the loop over
--   the bits of an index, and the receiver holds bytes where the code holds their hex digits.
-- - Domain.Node: src/payment_communities/domain/node.py; the nodes and the channels are stores
--   that are read by number, since a channel is shared by its two nodes. `node_refund_htlc` is
--   the method `refund_htlc` of a node.
-- - Bitcoin.Integers and Bitcoin.Curve: the points and the revocation keys of
--   src/payment_communities/bitcoin/utils.py, over the point operations of ecdsa.
-- - Bitcoin.Tagged and Bitcoin.Taproot: src/payment_communities/bitcoin/taproot.py; Power has
--   Python's `pow` with a modulus, Schnorr has `schnorr_sign`, Program the class
--   WitnessV1TaprootProgram of src/payment_communities/bitcoin/interpreter.py, whose loop over
--   the control block is `climb`; Merkle, Spending and Tweak have what holds of control blocks,
--   of spends and of tweaked keys.
-- - Protocols.Ptlc: src/payment_communities/protocols/ptlc.py; Adaptor has the adaptor
--   signatures, Settlement and Taproot the script and the transactions, Bip340 the variants with
--   the challenge of BIP 340.
-- - Protocols.Eltoo: src/payment_communities/protocols/eltoo.py.
-- - Protocols.Swaps: src/payment_communities/protocols/swaps.py; Protocols.Swaps.Server:
--   src/payment_communities/protocols/swap_server.py; Claims, Refunds and Sessions have what a
--   swap and its coordinator guarantee.
-- - Protocols.Anchors: src/payment_communities/protocols/anchors.py.
-- - Protocols.Watchtower: src/payment_communities/protocols/watchtower.py; Detection follows a
--   registration through a broadcast.
--
-- The search for a route runs on fuel: two turns more than there are entries in the rows of the
-- graph, which is enough because each node is expanded once. The halvings of an index have the
-- index itself for fuel, the powers modulo the field's prime 256 bits, and the loop over a
-- control block its length. All other loops are structural. Python's integers are integers, or
-- natural numbers where the code has lengths, indices and fields of a transaction; two's
-- complement is written out for the numbers on the script stack.
--
-- Parameters stand for code outside the repository: python-bitcoinlib's script codec, signature
-- hash, digests and ECDSA check (ScriptLibrary, BitcoinLibrary, SpendContext, TaprootLibrary),
-- its hex codec (Hashes), and the points of ecdsa (CurveLibrary). The theorems on keys assume
-- that the points the code can reach are multiples of the generator, added and multiplied as
-- their scalars are modulo the group order (IsGroup), and that they have coordinates
-- (HasCoordinates). A theorem that relies on the codec says so: a script that was built reads
-- back as its items (ReadsBack), and a number as itself (ReadsNumber). The range checks of the
-- library's constructors are left out, COutPoint's check that a transaction id has 32 bytes among
-- them. The codec parses every script, where python-bitcoinlib raises on a push that is cut
-- short. The digest of a spend is taken of the items of the script that runs, encoded again:
-- these are the script's own bytes where it has the codec's encoding. HasCoordinates also reads
-- the negated point at a multiple of the group order, where ecdsa raises; the code gets there by
-- no key or nonce that is not 0 modulo the order. Two of the conditions of theorems are checked
-- by no code: that no two nodes of a process have one alias, and that an HTLC is offered under an
-- id that is not pending.
--
-- Not modelled: Bech32m addresses; HTTP, sockets, the database and the command line, which are
-- I/O; the onion packets; the result type and the decorators.
pub mod Base
pub mod Errors
pub mod Config
pub mod Protocols
pub mod Domain
pub mod Bitcoin
pub mod Network
