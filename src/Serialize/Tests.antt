-- ===== src/Serialize/Tests.antt =====
-- Tests of src/common/serialize.c on concrete messages.
use amdgpu_fand.Base.{
  ℕ, ◌≡◌, refl, arith, List, [], ◌∷◌, length, replicate, pos, negsuc, neg, e2big, codes,
}
use amdgpu_fand.Serialize.Outcome.{ret, undefined, ◌>>=◌}
use amdgpu_fand.Serialize.Dfa.{
  state_flags, edges, dfa_edge_match, dfa_bitflag_set, dfa_accept, follow_edge, fmt_masks,
  is_one_of, flag_times, dfa_flags_to_fmttype, simulate, dfa_simulate,
}
use amdgpu_fand.Serialize.Bytes.{le_bytes}
use amdgpu_fand.Serialize.Conversion.{hu, hhu}
use amdgpu_fand.Serialize.Pack.{val, ptr, packf}
use amdgpu_fand.Serialize.Unpack.{count, room, unpackf}
use amdgpu_fand.Serialize.Fields.{
  Field, one, many, format, pack_args, Reads, reads_nil, reads_one, reads_many, field_bytes, encode,
}
use amdgpu_fand.Serialize.Fields.Packing.{packf-encode, packf_full}
use amdgpu_fand.Serialize.Fields.Unpacking.{unpackf-encode, unpackf-packf}
use amdgpu_fand.Serialize.Ends.{packf-ne-out_of_fuel}
use amdgpu_fand.Serialize.Message.{
  ipc_rsp_ok, ipc_rsp_err, pack_error, pack_speed, pack_temp, pack_exit_rsp, pack_matrix, unset,
  number, rows, unpack_speed, unpack_temp, unpack_exit_rsp, unpack_matrix,
}
use amdgpu_fand.Serialize.Message.Numbers.{received, unpack-pack}
use amdgpu_fand.Serialize.Message.Matrices.{unpack_matrix-pack_matrix, unpack_matrix_overflow}
use amdgpu_fand.Serialize.Conversion.{dfa_simulate-first_of_list}
use amdgpu_fand.Serialize.Outcome.{out_of_fuel}
use amdgpu_fand.Base.{◌≢◌}

-- "%hu%*hhu" with 513 and the bytes 7 8 9.
abbrev fields : List Field
fields = one hu 513 ∷ many hhu 3 (7 ∷ 8 ∷ 9 ∷ []) ∷ []

-- The response buffer of IPC_MAX_MSG_LENGTH bytes.
abbrev buffer : List ℕ
buffer = replicate 48 0

fields-Reads : Reads fields (room 2 ∷ count 3 ∷ room 4 ∷ [])
fields-Reads =
    reads_one hu 513 2 (omega arith) (reads_many hhu 3 4 (7 ∷ 8 ∷ 9 ∷ []) (omega arith) reads_nil)

dfa_table :
    (dfa_simulate (codes "hhu%d") ≡ pos 5)
    × (dfa_simulate (codes "lld") ≡ pos 4)
    × (dfa_simulate (codes "hl") ≡ negsuc 0)
    × (dfa_simulate [] ≡ negsuc 0)
unfolding dfa_simulate simulate edges follow_edge dfa_edge_match dfa_accept dfa_bitflag_set
    state_flags dfa_flags_to_fmttype flag_times is_one_of fmt_masks
dfa_table = (refl, refl, refl, refl)

dfa_simulate-first_of_list_example : dfa_simulate (codes "hhu%d") ≡ pos 5
dfa_simulate-first_of_list_example = dfa_simulate-first_of_list (codes "hhu%d")

packf-encode_example :
    packf buffer 48 (codes "%hu%*hhu") (val 513 ∷ val 3 ∷ ptr (7 ∷ 8 ∷ 9 ∷ []) ∷ [])
    ≡ ret (pos 5, 1 ∷ 2 ∷ 7 ∷ 8 ∷ 9 ∷ replicate 43 0)
unfolding format pack_args encode field_bytes le_bytes
packf-encode_example =
    packf-encode fields 48 buffer (tt, ((omega arith, omega arith, omega arith), tt)) (omega arith)
      (omega arith)

packf_full_example :
    (buffer' : List ℕ) × (packf buffer 4
        (codes "%hu%*hhu")
        (val 513 ∷ val 3 ∷ ptr (7 ∷ 8 ∷ 9 ∷ []) ∷ [])
      ≡ ret (neg e2big, buffer'))
    × (length buffer' ≡ 48)
unfolding format pack_args encode field_bytes le_bytes
packf_full_example =
    packf_full fields 4 buffer (tt, ((omega arith, omega arith, omega arith), tt)) (omega arith)
      (omega arith)

unpackf-encode_example :
    unpackf (1 ∷ 2 ∷ 7 ∷ 8 ∷ 9 ∷ 0 ∷ []) 6 (codes "%hu%*hhu") (room 2 ∷ count 3 ∷ room 4 ∷ [])
    ≡ ret (pos 5, (1 ∷ 2 ∷ []) ∷ (7 ∷ 8 ∷ 9 ∷ []) ∷ [])
unfolding format encode field_bytes le_bytes
unpackf-encode_example =
    unpackf-encode {fields = fields} 6 (0 ∷ []) fields-Reads
      (tt, ((omega arith, omega arith, omega arith), tt)) (omega arith) (omega arith)

unpackf-packf_example :
    (packf buffer 48 (codes "%hu%*hhu") (val 513 ∷ val 3 ∷ ptr (7 ∷ 8 ∷ 9 ∷ []) ∷ []) >>= λ r.
    unpackf r.1 5 (codes "%hu%*hhu") (room 2 ∷ count 3 ∷ room 4 ∷ []))
    ≡ ret (pos 5, (1 ∷ 2 ∷ []) ∷ (7 ∷ 8 ∷ 9 ∷ []) ∷ [])
unfolding format pack_args encode field_bytes le_bytes
unpackf-packf_example =
    unpackf-packf {fields = fields} 48 buffer fields-Reads
      (tt, ((omega arith, omega arith, omega arith), tt)) (omega arith) (omega arith)

packf-ne-out_of_fuel_example : packf buffer 48 (codes "%%%") [] ≢ out_of_fuel
packf-ne-out_of_fuel_example = packf-ne-out_of_fuel buffer 48 (codes "%%%") []

unpack-pack_example :
    (received unpack_speed (pack_speed buffer 48 (pos 35)) ≡ ret (pos ipc_rsp_ok, number (pos 35)))
    × (received unpack_temp (pack_temp buffer 48 (pos 35)) ≡ ret (pos ipc_rsp_ok, number (pos 35)))
    × (received unpack_speed (pack_error buffer 48 (pos 35))
        ≡ ret (pos ipc_rsp_err, number (pos 35)))
    × (received unpack_temp (pack_error buffer 48 (pos 35))
        ≡ ret (pos ipc_rsp_err, number (pos 35)))
    × (received unpack_exit_rsp (pack_error buffer 48 (pos 35))
        ≡ ret (pos ipc_rsp_err, number (pos 35)))
    × (received unpack_exit_rsp (pack_exit_rsp buffer 48) ≡ ret (pos ipc_rsp_ok, unset))
unpack-pack_example = unpack-pack buffer 48 (pos 35) (omega arith) (omega arith) (omega arith)

unpack_matrix-pack_matrix_example :
    received unpack_matrix (pack_matrix buffer 48 (50 ∷ 20 ∷ 60 ∷ 50 ∷ []) 2)
    ≡ ret (pos ipc_rsp_ok, rows 2 (50 ∷ 20 ∷ 60 ∷ 50 ∷ []))
unpack_matrix-pack_matrix_example =
    unpack_matrix-pack_matrix buffer (50 ∷ 20 ∷ 60 ∷ 50 ∷ []) 48 2 (omega arith) (omega arith)
      (omega arith) (omega arith) (omega arith)

unpack_matrix_overflow_example : unpack_matrix (37 ∷ 0 ∷ 17 ∷ replicate 45 1) 48 ≡ undefined
unpack_matrix_overflow_example =
    unpack_matrix_overflow 37 17 48 (replicate 45 1) (omega arith) (omega arith) (omega arith)
      (omega arith) (omega arith)
