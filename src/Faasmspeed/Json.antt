-- ===== src/Faasmspeed/Json.antt =====
-- `make_json_call` of faasmspeed/src/main.rs.
pub mod Reader
pub mod Body
use ndp_auto_offload.Base.{Bool, [], ◌++◌, if◌then◌else◌}
use ndp_auto_offload.Text.{Text, codes}

unfoldable pub make_json_call : Text → Text → Text → Bool → Bool → Text
make_json_call user function input_data forbid_ndp force_storage =
    codes "{\"user\":\""
    ++ (user
        ++ (codes "\",\"function\":\""
            ++ (function
                ++ (codes "\",\"input_data\":\""
                    ++ (input_data
                        ++ (codes "\",\"forbid_ndp\":"
                            ++ ((if forbid_ndp then codes "true" else codes "false")
                                ++ ((if force_storage then codes ",\"is_storage\":true" else [])
                                    ++ codes "}"))))))))
