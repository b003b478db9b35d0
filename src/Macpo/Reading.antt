-- ===== src/Macpo/Reading.antt =====
-- What tools/macpo/analyze/record_io.cpp reads from the messages of a file.
use Prim.Native.String.{String}
use perfexpert.Prelude.{◌≡◌, ◌∙◌, refl, sym, ap, List, [], ◌∷◌, ◌++◌, append_assoc, append-nil}
use perfexpert.Macpo.Record.{
  MemInfo, TraceInfo, VectorStrideInfo, Node, terminal, stream_info, mem_info, metadata, trace_info,
  vector_stride_info, other_message, GlobalData, push_last, handle_stream_msg, handle_trace_msg,
  handle_mem_msg, handle_metadata_msg, handle_terminal_msg, handle_vector_stride_msg, ReadResult,
  done, err_unknown_msg, read_nodes,
}

abbrev pub flat {ℓ} : {A : Type ℓ} → List (List A) → List A
flat [] = []
flat (l ∷ ls) = l ++ flat ls

flat-push_last {ℓ} :
    {A : Type ℓ} (a : A) (ls : List (List A)) → flat (push_last a ls) ≡ flat ls ++ a ∷ []
unfolding push_last
flat-push_last a [] = refl
flat-push_last a (l ∷ []) = append-nil (l ++ a ∷ []) ∙ ap (λ zs. zs ++ a ∷ []) (sym (append-nil l))
flat-push_last a (l ∷ m ∷ rest) =
    ap (λ zs. l ++ zs) (flat-push_last a (m ∷ rest))
    ∙ sym (append_assoc l (flat (m ∷ rest)) (a ∷ []))

flat-append_empty {ℓ} : {A : Type ℓ} (ls : List (List A)) → flat (ls ++ [] ∷ []) ≡ flat ls
flat-append_empty [] = refl
flat-append_empty (l ∷ ls) = ap (λ zs. l ++ zs) (flat-append_empty ls)

-- The messages of each kind before the first one of an unknown kind, and whether there is one.
abbrev pub names : List Node → List String
names [] = []
names (stream_info name ∷ rest) = name ∷ names rest
names (other_message kind ∷ rest) = []
names (_ ∷ rest) = names rest

abbrev pub accesses : List Node → List MemInfo
accesses [] = []
accesses (mem_info info ∷ rest) = info ∷ accesses rest
accesses (other_message kind ∷ rest) = []
accesses (_ ∷ rest) = accesses rest

abbrev pub traces : List Node → List TraceInfo
traces [] = []
traces (trace_info info ∷ rest) = info ∷ traces rest
traces (other_message kind ∷ rest) = []
traces (_ ∷ rest) = traces rest

abbrev pub strides : List Node → List VectorStrideInfo
strides [] = []
strides (vector_stride_info info ∷ rest) = info ∷ strides rest
strides (other_message kind ∷ rest) = []
strides (_ ∷ rest) = strides rest

-- The data that were read, with the messages of `g` before those of the file.
abbrev pub IsRead : (nodes : List Node) → (g g' : GlobalData) → Type 0
IsRead nodes g g' =
    (g'.stream_list ≡ g.stream_list ++ names nodes)
    × (flat g'.mem_info_bucket ≡ flat g.mem_info_bucket ++ accesses nodes)
    × (flat g'.trace_info_bucket ≡ flat g.trace_info_bucket ++ traces nodes)
    × (flat g'.vector_stride_info_bucket ≡ flat g.vector_stride_info_bucket ++ strides nodes)

-- The answer fits the messages: an error exactly if one is of an unknown kind.
abbrev pub IsAnswer : (all nodes : List Node) → GlobalData → ReadResult → Type 0
IsAnswer all [] g (done g') = IsRead all g g'
IsAnswer all [] g (err_unknown_msg g') = ⊥
IsAnswer all (other_message kind ∷ rest) g (done g') = ⊥
IsAnswer all (other_message kind ∷ rest) g (err_unknown_msg g') = IsRead all g g'
IsAnswer all (_ ∷ rest) g r = IsAnswer all rest g r

-- A handler that changes the data, and the rest of the messages.
appended {ℓ} :
    {A : Type ℓ} (xs ys zs : List A) (a : A) → xs ≡ ys ++ a ∷ [] → xs ++ zs ≡ ys ++ a ∷ zs
appended xs ys zs a same = ap (λ l. l ++ zs) same ∙ append_assoc ys (a ∷ []) zs

IsAnswer-IsRead :
    (all all' nodes : List Node) (g g' : GlobalData) (r : ReadResult)
    → ((h : GlobalData) → IsRead all g h → IsRead all' g' h)
    → IsAnswer all nodes g r
    → IsAnswer all' nodes g' r
IsAnswer-IsRead all all' [] g g' (done h) f a = f h a
IsAnswer-IsRead all all' [] g g' (err_unknown_msg h) f a = elim a [ ]
IsAnswer-IsRead all all' (other_message kind ∷ rest) g g' (done h) f a = elim a [ ]
IsAnswer-IsRead all all' (other_message kind ∷ rest) g g' (err_unknown_msg h) f a = f h a
IsAnswer-IsRead all all' (terminal ∷ rest) g g' r f a = IsAnswer-IsRead all all' rest g g' r f a
IsAnswer-IsRead all all' (stream_info n ∷ rest) g g' r f a =
    IsAnswer-IsRead all all' rest g g' r f a
IsAnswer-IsRead all all' (mem_info n ∷ rest) g g' r f a = IsAnswer-IsRead all all' rest g g' r f a
IsAnswer-IsRead all all' (metadata n ∷ rest) g g' r f a = IsAnswer-IsRead all all' rest g g' r f a
IsAnswer-IsRead all all' (trace_info n ∷ rest) g g' r f a = IsAnswer-IsRead all all' rest g g' r f a
IsAnswer-IsRead all all' (vector_stride_info n ∷ rest) g g' r f a =
    IsAnswer-IsRead all all' rest g g' r f a

-- read_file goes through the messages in their order: with those that it was given before in
-- front, the names of streams, the memory accesses, the traces and the strides are those of the
-- messages before the first one of an unknown kind, in their order and whatever lists of a
-- bucket they are in, and it ends with an error exactly if there is such a message.
pub read_nodes-IsAnswer :
    (nodes : List Node) (g : GlobalData) → IsAnswer nodes nodes g (read_nodes nodes g)
unfolding read_nodes handle_stream_msg handle_trace_msg handle_mem_msg handle_metadata_msg
    handle_terminal_msg handle_vector_stride_msg
read_nodes-IsAnswer [] g =
    (sym (append-nil _), sym (append-nil _), sym (append-nil _), sym (append-nil _))
read_nodes-IsAnswer (other_message kind ∷ rest) g =
    (sym (append-nil _), sym (append-nil _), sym (append-nil _), sym (append-nil _))
read_nodes-IsAnswer (terminal ∷ rest) g =
    IsAnswer-IsRead rest (terminal ∷ rest) rest (handle_terminal_msg g) g
      (read_nodes rest (handle_terminal_msg g))
      (λ h (a, b, c, d).
        (a, b ∙ ap (λ l. l ++ accesses rest) (flat-append_empty g.mem_info_bucket), c, d))
      (read_nodes-IsAnswer rest (handle_terminal_msg g))
read_nodes-IsAnswer (stream_info name ∷ rest) g =
    IsAnswer-IsRead rest (stream_info name ∷ rest) rest (handle_stream_msg name g) g
      (read_nodes rest (handle_stream_msg name g))
      (λ h (a, b, c, d). (a ∙ appended _ g.stream_list (names rest) name refl, b, c, d))
      (read_nodes-IsAnswer rest (handle_stream_msg name g))
read_nodes-IsAnswer (mem_info info ∷ rest) g =
    IsAnswer-IsRead rest (mem_info info ∷ rest) rest (handle_mem_msg info g) g
      (read_nodes rest (handle_mem_msg info g))
      (λ h (a, b, c, d). (
        a,
        b
            ∙ appended _ (flat g.mem_info_bucket) (accesses rest) info
                (flat-push_last info g.mem_info_bucket),
        c,
        d,
      ))
      (read_nodes-IsAnswer rest (handle_mem_msg info g))
read_nodes-IsAnswer (metadata name ∷ rest) g =
    IsAnswer-IsRead rest (metadata name ∷ rest) rest g g (read_nodes rest g) (λ h a. a)
      (read_nodes-IsAnswer rest g)
read_nodes-IsAnswer (trace_info info ∷ rest) g =
    IsAnswer-IsRead rest (trace_info info ∷ rest) rest (handle_trace_msg info g) g
      (read_nodes rest (handle_trace_msg info g))
      (λ h (a, b, c, d). (
        a,
        b,
        c
            ∙ appended _ (flat g.trace_info_bucket) (traces rest) info
                (flat-push_last info g.trace_info_bucket),
        d,
      ))
      (read_nodes-IsAnswer rest (handle_trace_msg info g))
read_nodes-IsAnswer (vector_stride_info info ∷ rest) g =
    IsAnswer-IsRead rest (vector_stride_info info ∷ rest) rest (handle_vector_stride_msg info g) g
      (read_nodes rest (handle_vector_stride_msg info g))
      (λ h (a, b, c, d). (
        a,
        b,
        c,
        d
            ∙ appended _ (flat g.vector_stride_info_bucket) (strides rest) info
                (flat-push_last info g.vector_stride_info_bucket),
      ))
      (read_nodes-IsAnswer rest (handle_vector_stride_msg info g))
