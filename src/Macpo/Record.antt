-- ===== src/Macpo/Record.antt =====
-- tools/macpo/common/macpo_record.h and tools/macpo/analyze/record_io.cpp: the messages that the runtime
-- writes, and the data that the analysis reads from them.
use Prim.Native.String.{String}
use perfexpert.Prelude.{ℕ, List, [], ◌∷◌, ◌++◌}

-- The kinds of access.
abbrev pub type_unknown : ℕ
type_unknown = 0

abbrev pub type_read : ℕ
type_read = 1

abbrev pub type_write : ℕ
type_write = 2

abbrev pub type_read_and_write : ℕ
type_read_and_write = 3

pub record MemInfo : Type 0 where
  pub core_id : ℕ
  pub read_write : ℕ
  pub line_number : ℕ
  pub address : ℕ
  pub var_idx : ℕ
  pub type_size : ℕ

pub record TraceInfo : Type 0 where
  pub core_id : ℕ
  pub read_write : ℕ
  pub line_number : ℕ
  pub base : ℕ
  pub address : ℕ
  pub var_idx : ℕ

pub record VectorStrideInfo : Type 0 where
  pub core_id : ℕ
  pub loop_line_number : ℕ
  pub var_idx : ℕ
  pub address : ℕ
  pub type_size : ℕ

-- `node_t`: the union with the number that tells what it holds.
pub data Node : Type 0 where
  terminal : Node
  stream_info : String → Node
  mem_info : MemInfo → Node
  metadata : String → Node
  trace_info : TraceInfo → Node
  vector_stride_info : VectorStrideInfo → Node
  other_message : ℕ → Node

pub record CacheData : Type 0 where
  pub size : ℕ
  pub line_size : ℕ
  pub associativity : ℕ
  pub count : ℕ

-- `global_data_t`
pub record GlobalData : Type 0 where
  pub l1_data : CacheData
  pub l2_data : CacheData
  pub l3_data : CacheData
  pub stream_list : List String
  pub mem_info_bucket : List (List MemInfo)
  pub trace_info_bucket : List (List TraceInfo)
  pub vector_stride_info_bucket : List (List VectorStrideInfo)

-- `push_back` on the last list of a bucket, which gets a list if it has none.
unfoldable pub push_last {ℓ} : {A : Type ℓ} → A → List (List A) → List (List A)
push_last a [] = (a ∷ []) ∷ []
push_last a (l ∷ []) = (l ++ a ∷ []) ∷ []
push_last a (l ∷ m ∷ rest) = l ∷ push_last a (m ∷ rest)

unfoldable pub handle_stream_msg : String → GlobalData → GlobalData
handle_stream_msg name g = record g { stream_list = g.stream_list ++ name ∷ [] }

unfoldable pub handle_trace_msg : TraceInfo → GlobalData → GlobalData
handle_trace_msg info g = record g { trace_info_bucket = push_last info g.trace_info_bucket }

unfoldable pub handle_mem_msg : MemInfo → GlobalData → GlobalData
handle_mem_msg info g = record g { mem_info_bucket = push_last info g.mem_info_bucket }

-- It only prints.
unfoldable pub handle_metadata_msg : String → GlobalData → GlobalData
handle_metadata_msg name g = g

unfoldable pub handle_terminal_msg : GlobalData → GlobalData
handle_terminal_msg g = record g { mem_info_bucket = g.mem_info_bucket ++ [] ∷ [] }

unfoldable pub handle_vector_stride_msg : VectorStrideInfo → GlobalData → GlobalData
handle_vector_stride_msg info g = record g {
  vector_stride_info_bucket = push_last info g.vector_stride_info_bucket;
}

-- The codes are negated by `read_file`; the handlers answer zero.
pub data ReadResult : Type 0 where
  done : GlobalData → ReadResult
  err_unknown_msg : GlobalData → ReadResult

-- The loop of `read_file`, on the messages that the file holds.
unfoldable pub read_nodes : List Node → GlobalData → ReadResult
read_nodes [] g = done g
read_nodes (stream_info name ∷ rest) g = read_nodes rest (handle_stream_msg name g)
read_nodes (mem_info info ∷ rest) g = read_nodes rest (handle_mem_msg info g)
read_nodes (trace_info info ∷ rest) g = read_nodes rest (handle_trace_msg info g)
read_nodes (metadata name ∷ rest) g = read_nodes rest (handle_metadata_msg name g)
read_nodes (terminal ∷ rest) g = read_nodes rest (handle_terminal_msg g)
read_nodes (vector_stride_info info ∷ rest) g = read_nodes rest (handle_vector_stride_msg info g)
read_nodes (other_message kind ∷ rest) g = err_unknown_msg g
