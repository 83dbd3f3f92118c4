-- ===== src/Lib.antt =====
-- A model of the wire protocol of the TPM 2.0 library, with the theorems that make it correct.
--
-- The repository has seven crates. crates/protocol is the wire protocol: integers, byte buffers,
-- lists, enumerations, structures and frames, each read from a byte slice without copying (casts),
-- read into an owned value (unmarshal) and written through a bounded writer (marshal). crates/vtpm,
-- policy-language, tpmkey, crypto, device and sh stand on it. crates/vtpm caches TPM objects under
-- virtual handles, in memory and in a directory of files; crates/policy-language compiles policy
-- expressions to TPM commands and the digest they lead to. This library models crates/protocol from
-- the bottom up, and of the crates above it the core of those two.
--
-- Which file models which part (paths from the repository's root):
--   Common                 shared names: Boolean tests, Rust's Result, lists over the native
--                          numbers, and the checked and saturating operations of a 64-bit usize
--   Protocol/Error         crates/protocol/src/error.rs: TpmError, offset, rebase, tpm_offset
--   Protocol/Writer        crates/protocol/src/lib.rs: TpmWriter. A marshaler is a function from the
--                          writer to its result and the writer it leaves, so that what a failing
--                          marshaler has written is part of the model
--   Protocol/WireBytes     crates/protocol/src/lib.rs: TpmWireBytes, the fixed-size views
--   Protocol/Codec         crates/protocol/src/lib.rs: the traits TpmSized, TpmMarshal and
--                          TpmUnmarshal of a type as a record, and the laws that clients use
--   Protocol/Integer       crates/protocol/src/basic/integer.rs: TpmInt over n big-endian bytes
--   Protocol/Slots         the partly initialised storage that buffers and lists share
--   Protocol/Buffer        crates/protocol/src/basic/buffer.rs: Tpm2b and TpmBuffer
--   Protocol/Lists         crates/protocol/src/basic/list.rs: Tpml, TpmlIter and TpmList
--   Protocol/Enum          crates/protocol/src/macro/enum.rs: what tpm_enum! makes of a list of variants
--   Protocol/Rc            crates/protocol/src/data/enum/rc.rs: TpmRc, its constants and bit fields;
--                          Rc/Base has the codes without their index
--   Protocol/Constants     crates/protocol/src/data/enum/mod.rs: TpmCc, TpmSt, TpmAlgId, TpmRh, TpmHt
--   Protocol/Frame         crates/protocol/src/frame/marshal.rs and frame/mod.rs: commands and responses
--                          written as frames; Frame/Envelope is the end of a frame and
--                          Frame/Auths the walk over the authorization area in frame/wire.rs
--   Vtpm/Disk              crates/vtpm/src/lib.rs: write_atomic, over the calls of std::fs on one
--                          directory as the record Disk; Disk/Laws has what their documentation says
--   Vtpm/Env               what the cache takes from elsewhere: public areas with their encoding, names,
--                          contexts and policy commands
--   Vtpm/Cache             crates/vtpm/src/lib.rs: VtpmKey, VtpmCache, the lookups and the publication of
--                          names; Cache/Save has save_transient and save_persistent, Cache/Remove has
--                          remove and remove_subtree, Cache/Ancestors has fetch_ancestors
--   Vtpm/PolicyList        crates/vtpm/src/policy.rs: the policy commands of a cache record
--   Vtpm/Record            crates/vtpm/src/lib.rs: VtpmKey::save and VtpmKey::load
--   PolicyLanguage         crates/policy-language/src: Session is TpmPolicySession and Expression the
--                          context and the expressions (lib.rs), Compile is compile and Commands is
--                          from_commands (expression.rs), Error is error.rs; Hash names the algorithms
--                          of crates/crypto/src/hash.rs
--   Protocol/Tests, Vtpm/Tests, PolicyLanguage/Tests
--                          the theorems applied to concrete inputs
--
-- How code corresponds to definitions: a byte is a native number below 256, a slice is a list, and a
-- borrowed view is the bytes that it borrows. A method on `&mut self` returns the value as it leaves
-- it. `?` is the bind of Result. A usize has 64 bits: sums that the source checks are checked
-- against 2 ^ 64, and slices are assumed shorter than that where a theorem needs it. A storage cell
-- that has not been written is `none`, and reading it as a slice leaves it out, so that it shows in
-- the length. Loops are structural recursion on the count or the list that the source loops over.
-- Three loops run on fuel: `collect` follows an iterator for one step more than the number of items
-- it announces; the queue loop of remove_subtree has one round for the root and one for each
-- context, since each round takes one element off the queue and puts on it one for each context it
-- removes; a loop that has an element left after its last round gives `out_of_fuel`, which is
-- neither success nor an error of the program; the climb of fetch_ancestors takes its fuel as an
-- argument, with `none` for a loop that is not at its end, since there are caches on which the
-- source never leaves it.
--
-- A HashMap is an association list in which a key occurs once, and a HashSet a list of which only
-- the members matter; the order of iteration is that of the list, so that a theorem for every list
-- holds for every order. A method that fails after it has changed the cache returns the cache with
-- its error. The calls of the file system, the names that crates/crypto computes, the digests of
-- OpenSSL, and the encodings of structures that are not modelled are operations of the records Disk,
-- Env and Crypto; what a theorem needs of them is a hypothesis of its own, such as IsDisk, and
-- TellsApart, which asks of the encodings only that they tell the areas of one subtree from those of
-- the parents of the same cache.
--
-- The operations `&`, `|`, `<<` and `>>` of the source are bit_and and bit_or on the native numbers,
-- with multiplication and division by a power of two for the shifts. A trait that the frame code
-- takes as a type parameter is a record of its operations, and the laws that its documentation
-- promises are the hypotheses IsFrame and IsCodec of the theorems.
--
-- Not modelled: the rest of the frame views and the dispatch table of frames, the structures and
-- unions, the unsafe pointer reinterpretations (a view is its bytes), the text of Display and Debug,
-- and the signed integer types; of crates/vtpm the scan of the directory at start, the saving of the
-- dirty keys and the types of policy commands; of crates/policy-language the tokens and the parser;
-- and the crates tpmkey, device and sh.
pub mod Common
pub mod Protocol
pub mod Vtpm
pub mod PolicyLanguage
