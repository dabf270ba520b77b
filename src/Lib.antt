-- ===== src/Lib.antt =====
-- rsLXMFLite: a bounded codec for LXMF messages, with the proof of work for stamps, for clients on
-- devices without an allocator. Paths are from the repository's root.
--
-- The parts, and the file of each:
-- * src/lxmf.rs, `skip_value`, `skip_n` and `read_bin`, the walker over MessagePack values that all
--   parsing rests on: MsgPack.antt. The match on a marker is `format`, and what its arms do is
--   `skip_format`. MsgPack/Grammar.antt is the format's table, a relation that does not mention
--   the walker; the extension types are left out of it, since the code refuses them; Bounds, Complete, Sound and Blob set the walker against it.
-- * src/lxmf.rs, the trait `PayloadWriter`, its two writers, `write_payload` and what it calls,
--   `encoded_field_set`, `pack_payload` and the `packed_len` family: Payload.antt. Payload/Bytes.antt
--   is the payload as a list of bytes, with no writer; Emits and Size set the encoder against it.
--   Bits and FieldSet are about the set of ids, Sorted and Written about the map that is written.
-- * src/lxmf.rs, `FieldId`, `read_field_id`, `read_map_header`, the two validators of the outer
--   fields map and the lookups: Fields.antt. Entries and Accepts read a map as a list of
--   entries; Keys, Maps, Headers and Format describe keys, entries and headers by the format, with no
--   reference to the readers.
-- * src/lxmf.rs, `build_link` and its variants, and `parse_link`: Message.antt. Build and Parse say
--   what stands where in the buffers; Authentic what an accepted message has passed; Refusals when a
--   builder fails; Encoded, RoundTrip, Ordinary, Composed and Carried lead to the round
--   trips.
-- * src/lxmf.rs, the opportunistic builders, `seal_opportunistic`, `parse_opportunistic` and its
--   variants, and the first look at a sender: Opportunistic.antt. Parse and Sealed set them against the
--   link form, RoundTrip builder against parser; Peek is about the first look.
-- * src/lxmf.rs, `audio_field`, `ticket_field` and `map_bytes_value`: Readers.antt. Readers/Float.antt
--   has the conversions to `f64` and its order, Readers/Schema.antt text keys and the UTF-8 check.
-- * src/stamp.rs, tickets, `Workblock` and `StampSearch`: Stamp.antt. Prefix is about preparation,
--   Nonce and Zeros about the nonce and the value, Search, First and Run about the search.
-- * src/propagation.rs, the client of a node: Propagation.antt has `array_items` and its iterator, `response_data`,
--   `available_at`, `fetched_message`, `append_recipient_stamp` and `wrap_upload`; below it Request has
--   `build_get_request`, Announce the announces and costs, and Crypt `encrypt_message` and
--   `decrypt_message`. Items and Available are about arrays, Requested and Bounded about requests and
--   announces, Append and Stamped about the stamp, Entry and Delivery about an entry's way to its
--   recipient.
-- * Rns.antt holds what the message code takes from the crates `rns_lite_core` and `ed25519_dalek`.
-- * Base.antt and the files below it are shared: Boolean tests on numbers, lists, `LxmfError` and
--   the operator `?`, bytes and big-endian numbers, slices, and integers.
-- * Tests.antt and the files below it run the definitions at concrete inputs.
--
-- The conventions:
-- * A byte is a natural number, and `&[u8]` is a list of them; `IsBytes` says that they are below
--   256. An `f64` is its bit pattern. A `&mut [u8]` is a list that goes in and comes out.
-- * `usize` has 32 bits, as on the targets that the comments of `skip_value` name: `checked_add`,
--   `checked_mul` and `checked_shl` are written out with that bound. A slice is shorter than half
--   the address space (`IsSlice`) where the encoder's sums need it.
-- * `Err` leaves no state: what a failed call has written to its buffers is not modelled. The
--   exception is the scratch of `validate_fields`, which is returned with either result.
-- * The recursion of `skip_value` is bounded by its depth: `skip_level room` is `skip_value` at the
--   depth `9 - room`, and `room = 0` is the guard `depth > 8`. So there is no fuel that could run
--   out for another reason. The other loops go over lists and counts.
-- * The hash, the signature, identities and HKDF are parameters: the records `Rns` and `Hashing`.
--   `IdentityLaws` states what their documentation promises: the lengths of hashes and signatures,
--   that a delivery hash is the destination of the public key, and that a signature verifies under
--   the key of its signer. `EciesLaws` is about the plaintexts of a single packet: they
--   are encrypted, in place or not, to the announced length, and the holder of the key decrypts them.
--   `InPlaceLaws` is about plaintexts of any length that a ciphertext length is announced for: they are
--   encrypted in place, and the holder of the key opens the result in place. `HintLaws` says that the
--   index of a key that has served is a hint under which it serves again.
--   `UpdateLaws` states that a hash absorbs parts as it does the whole.
--   Nothing is assumed about collisions or forgery. Tests/Toy.antt and Tests/Stamps.antt have
--   instances of all.
-- * `expect` on an unprepared prefix, in `StampSearch::step`, is `none`.
--
-- * An `f64` that is computed with, in limits, costs and expiries, is rounded to the nearest and to the
--   even one of two, as the bit pattern that results. The cast of a 32-bit float to an integer is read in
--   its own format, since the widening is exact.
--
-- Not modelled: what the crates behind `Rns` and `Hashing` do inside; src/lib.rs, which declares the
-- modules; tests, examples and scripts, which are no part of the library.
pub mod Base
pub mod MsgPack
pub mod Payload
pub mod Fields
pub mod Readers
pub mod Rns
pub mod Message
pub mod Opportunistic
pub mod Stamp
pub mod Propagation
pub mod Tests
