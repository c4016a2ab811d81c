-- ===== src/Pools/Served.antt =====
-- fetchZpool and produceZpool at the decoder and the encoder of the pools. The syntax of JSON, between
-- its text and its values, is an argument, and so is the text of a type error.
use zdash.Prelude.{◌≡◌, refl, Option, none, some, Bytes}
use zdash.Json.Values.{Json}
use zdash.Pools.{ZPoolOutput}
use zdash.Pools.Decode.{decode_output}
use zdash.Pools.Encode.{encode_output}
use zdash.Pools.Reads.Output.{served_pools_decode}
use zdash.Produce.{Output, Coded, coded, broken, produce_zpool}

module _ (parse : Bytes → Coded Json) (print : Json → Bytes) (type_error : Json → Bytes) where
  -- a value of the right shape, or the error of `json.Unmarshal`
  shaped : Json → Option ZPoolOutput → Coded ZPoolOutput
  shaped j none = broken (type_error j)
  shaped j (some z) = coded z

  checked : Coded Json → Coded ZPoolOutput
  unfolding shaped
  checked (broken e) = broken e
  checked (coded j) = shaped j (decode_output j)

  -- `json.Unmarshal(out, &data)`
  unfoldable pub unmarshal_output : Bytes → Coded ZPoolOutput
  unfolding checked
  unmarshal_output out = checked (parse out)

  -- `json.Marshal(data)`
  unfoldable pub marshal_output : ZPoolOutput → Coded Bytes
  marshal_output z = coded (print (encode_output z))

  shaped-inv :
      (j : Json) (r : Option ZPoolOutput) (z : ZPoolOutput) → shaped j r ≡ coded z → r ≡ some z
  unfolding shaped
  shaped-inv j none z e = cc
  shaped-inv j (some y) z e = cc

  read_back :
      (c : Coded Json) (z : ZPoolOutput)
      → checked c ≡ coded z
      → decode_output (encode_output z) ≡ some z
  unfolding checked
  read_back (broken b) z e = cc
  read_back (coded j) z e = served_pools_decode j z (shaped-inv j (decode_output j) z e)

  -- Where zpool succeeds and its output decodes to the pools `z`, and where the text that is printed of
  -- their JSON value is parsed to that value, the request is answered with status 200, and a client
  -- that decodes the body finds the same pools `z`, every map and nested vdev included.
  pub served_pools :
      (o : Output) (z : ZPoolOutput)
      → o.err ≡ none
      → unmarshal_output o.out ≡ coded z
      → parse (print (encode_output z)) ≡ coded (encode_output z)
      → (body : Bytes) × (produce_zpool unmarshal_output marshal_output o ≡ (body, 200))
        × (unmarshal_output body ≡ coded z)
  unfolding unmarshal_output marshal_output produce_zpool
  served_pools o z done d law =
      (print (encode_output z), rw (done, d) refl, rw (law, read_back (parse o.out) z d) refl)
