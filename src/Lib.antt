-- ===== src/Lib.antt =====
-- Seedstone is a sharded in-memory key-value server with an append log. A key is mapped to a
-- virtual shard by a checksum (crates/seedstone-core/src/slot.rs), and a shard to the executor
-- that hosts it. An executor owns one keyspace per shard (crates/seedstone-core/src/dict.rs): a
-- chained hash table that grows incrementally, so that two tables coexist while a rehash is in
-- flight. The codec of the protocol (crates/seedstone-resp) stands between the connections and
-- the executors, and the service crate turns its frames into commands.
--
-- Slot and Slot/* model slot.rs: crc16_xmodem with its two loops (crc_bytes, crc_rounds),
-- shard_of, where none is the panic on no shards, and executor_of. first_shard describes the
-- ranges of shards independently.
--
-- Dict and Dict/* model dict.rs. Dict/Buckets has Entry, Bucket (a list of Slot, the tuple of the
-- source), Table, and the free functions find, find_mut (as assign, the write through the
-- reference that it returns), remove_from, bucket_index and matches. Dict has the record Dict and
-- its methods with_seed, clear, get, set_deadline, touch, insert, remove, rehash_step and
-- start_rehash, where a loop is structural recursion on the number of buckets to migrate and on a
-- bucket's slots. A method that returns a value and changes the keyspace returns the pair of
-- them. Dict/Valid states the invariant: each slot stands in the bucket of its hash, a key occurs
-- once, buckets below rehash_index are empty, and len, used_bytes and with_deadline are those of
-- a recount. Dict/Run runs a list of writes against a finite map.
--
-- Walk and Walk/* model the walk of a keyspace by a cursor: scan, scan_in_order with its loop
-- over the larger table (visit_expansion), visit_bucket and reverse_increment; the slots visited
-- are a list. The loop runs on the larger table's length as fuel: the larger table is one
-- doubling wider, so the cursor is back in the bits of the smaller mask after two rounds.
-- Walk/Position places a cursor in the reversed binary order, and Walk/Cycle and Walk/End follow
-- a client's whole walk over a keyspace that changes between calls. Sweep and Sweep/* model the
-- two callers in the same file, expire_step with the policy of shard/policy.rs, and
-- sample_oldest.
--
-- Memory and Memory/* model memory.rs: MemoryGauge::apply on a counter that wraps, with any order
-- of the executors' commands as a list, EvictionMode, MemoryLimit and parse_bytes.
-- str::parse::<u64> is written out as the standard library documents it.
--
-- Resp and Resp/* model the codec of the protocol, crates/seedstone-resp/src/lib.rs. Resp has Frame
-- (a text is its bytes, and frames hold lists of frames, a type of their own) and encode, whose
-- loop over a stack of pending frames runs on the number of frames as fuel, as in a release build:
-- the two debug assertions on a text's bytes are left out. Resp/Field has the
-- refusals and parse_i64, with str::parse::<i64> and str::from_utf8 (Base/Utf8) written out as the
-- standard library documents them. Resp/Decoder has the state of the decoder and the steps that
-- do not read an element, Resp/Reader has read_element with array_header as header_count, and
-- Resp/Machine has place with its cascade over filled arrays (settle), step, the Decoder with
-- feed, try_next and compact, and parse. A method on the state returns its result with the state
-- it leaves, also where it fails, and the stack of arrays has the innermost first. The loop of
-- step runs on fuel, one more than the bytes there are: each round moves the read position on.
-- The size of a Frame in memory is a parameter, and the buffer's capacity is left out.
-- Resp/Encoding describes the wire form by recursion. Resp/Line to Resp/Stream follow the decoder
-- over that form, Resp/Resume to Resp/Bounds keep an invariant of its state, and Resp/Append and
-- Resp/Verdict add bytes after it.
--
-- Glob and Glob/* model crates/seedstone-core/src/glob.rs: matches, backtrack and class. A position
-- in the pattern or the subject is what is left of it. element has the arms of the loop that are
-- no star: whether the element takes the byte, and the pattern after it. The loop runs on fuel:
-- the last star's position moves on at most once for each byte of the subject, and between two
-- moves each round shortens the pattern. Glob/Language defines the subjects of a pattern
-- inductively, and rests on element for what one element takes.
--
-- Log/Effect and its children model crates/seedstone-core/src/log/effect.rs: Effect, encode with
-- put_bytes and put_deadline, encoded_len, and decode with take_bytes and take_deadline, where a
-- cursor is returned with what is taken off it. None is the panic of put_bytes on a length that
-- is no u32, and a payload that is malformed.
--
-- Log/Crc and Log/Framing model the framing of crates/seedstone-core/src/log.rs: crc_tables with its
-- rows, crc32_iso_hdlc over blocks of sixteen bytes, encode_record, which returns what it appends,
-- and decode_record, whose checks after the magic byte are decode_header and decode_body. A usize
-- holds every u32, and the debug assertion on a record's length is left out. crc_bits of
-- Log/Crc/Blocks is the loop over the bits of each byte.
--
-- Shard and its modules model what a shard does, crates/seedstone-core/src/shard: command.rs
-- (Shard/Command, where Lifetime is its Expiry), reply.rs (Shard/Reply), and the deadlines
-- (Shard/Clock). Shard/State has ShardState and the log that it holds: the trait ReplicationLog of
-- log.rs as a record of the two methods that a shard calls, so that the log is any type with
-- those. append and each early return on its error are commit. Shard/Scan, Shard/Handlers and
-- Shard/Apply are apply.rs, one definition per handler, and SETNX's handler is set_nx_of.
-- Shard/Counters, Shard/Reclaim and Shard/Executor are the parts of executor.rs that run per
-- command: count_call, read_outcome, stats_of, sweep_expired, evict_until_fits, answer, and the
-- loop of serve over an envelope's commands (serve_all), in which the clock's reading after each
-- command is given. The gauge is the node's, and executors on other threads move it: what it reads
-- each time that a command asks it is given too, and what an executor applies to it is collected
-- as a list of moves, which Memory/Gauge sums. The loop of the eviction runs on fuel, one more than
-- the shard has keys: a round that goes on has removed a victim that was sampled, and Sweep/Candidates
-- and Shard/Executor/Removed show that a victim is in the keyspace and is one key fewer. The trace
-- of what is done, which nothing reads, is left out.
-- A clock is a number of nanoseconds, and `latest` the last instant that it can represent. None
-- stands for a panic, on a length that is no u32 or a shard of another executor, and for fuel that
-- runs out: Shard/Executor/Returns and Shard/Executor/Served give conditions under which neither
-- happens.
-- Shard/Integer is parse_i64 of apply.rs. Shard/Replay is replay_into with its closure resolve, and
-- bucketed of Shard/Replay/Recovery the decoding of a record in log/recovery.rs.
-- Shard/Logged says what it means that a shard's records describe its change: Held is a value
-- with its Unix deadline, effect_run what effects make of a map of them, and IsLog what a log has
-- to do, which is to keep each record that it accepts and none that it refuses. Shard/Meaning
-- describes each command on one key apart from the code: its reply and what the key holds after
-- it, from what the key holds (Content, a value with its deadline).
--
-- Service/Expiry models crates/seedstone-service/src/expiry.rs: refuse_past_the_clock,
-- expire_seconds, expire_millis, set_expire_value, remaining_from and absolute_deadline_span. The
-- clock's reading is an argument, and a refusal is a constructor with the name that its text
-- shows. Each one reads its argument and goes on in the definition of the same name and _of. Its
-- child Units is expiry_unit, with the match on a unit's form of set_options in
-- crates/seedstone-service/src/options.rs as per_unit.
--
-- Numbers are natural numbers. A u16 or u32 operation that may wrap writes its modulus out. Sums
-- of sizes in usize and u64 do not: they are bounded by the memory of the machine. SipHash-1-3
-- with the seed's keys is a parameter, any function of two keys and the bytes: no theorem needs
-- more of it.
--
-- Not modelled: the executors' asynchronous loop with its housekeeping, the pool and the
-- durability of a batch, the rest of the service, and the simulator, which are asynchronous and do
-- I/O; the log's files, snapshots, and the rest of recovery; the text of the codec's
-- messages; and the accessors of dict.rs that return one field.
pub mod Base
pub mod Slot
pub mod Dict
pub mod Walk
pub mod Sweep
pub mod Memory
pub mod Resp
pub mod Glob
pub mod Log
pub mod Shard
pub mod Service
mod Tests
