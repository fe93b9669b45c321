-- ===== src/Register/Modules.antt =====
-- The modules of addresses, control messages and their buffers, message headers and network
-- interfaces: the functions `luaopen_…` at the end of src/addrinfo.c, src/cmsghdr.c, src/cmsghdrs.c,
-- src/msghdr.c and src/device.c, and `lls_gcfn_init` of src/gcfn.c.
use lua_llsocket.Prelude.{String, [], ◌∷◌}
use lua_llsocket.Register.Functions.{CFunction, AddrinfoFn, CmsghdrFn, CmsghdrsFn, MsghdrFn}
use lua_llsocket.Register.Tables.{
  Table, Field, Registry, Methods, rawset, push_functions, push_fields, do_functions, do_fields,
  new_metatable,
}

abbrev pub addrinfo_mt : String
addrinfo_mt = "llsocket.addrinfo"

abbrev pub addrinfo_mmethod : Methods
addrinfo_mmethod = record {
  first = ("__gc", CFunction.addrinfo AddrinfoFn.gc_lua);
  others = ("__tostring", CFunction.addrinfo AddrinfoFn.tostring_lua) ∷ [];
}

abbrev pub addrinfo_method : Methods
addrinfo_method = record {
  first = ("family", CFunction.addrinfo AddrinfoFn.family_lua);
  others =
      ("socktype", CFunction.addrinfo AddrinfoFn.socktype_lua)
      ∷ ("protocol", CFunction.addrinfo AddrinfoFn.protocol_lua)
      ∷ ("canonname", CFunction.addrinfo AddrinfoFn.canonname_lua)
      ∷ ("port", CFunction.addrinfo AddrinfoFn.port_lua)
      ∷ ("addr", CFunction.addrinfo AddrinfoFn.addr_lua)
      ∷ ("getnameinfo", CFunction.addrinfo AddrinfoFn.getnameinfo_lua)
      ∷ [];
}

unfoldable pub addrinfo_metatable : Table Field
unfolding rawset do_functions do_fields
addrinfo_metatable =
    rawset "__index" (Field.table (do_functions addrinfo_method [])) (do_fields addrinfo_mmethod [])

unfoldable pub addrinfo_module : Table Field
unfolding rawset
addrinfo_module =
    rawset "getaddrinfo" (Field.function (CFunction.addrinfo AddrinfoFn.getaddrinfo_lua)) (
      rawset "inet6" (Field.function (CFunction.addrinfo AddrinfoFn.inet6_lua)) (
        rawset "inet" (Field.function (CFunction.addrinfo AddrinfoFn.inet_lua))
          (rawset "unix" (Field.function (CFunction.addrinfo AddrinfoFn.unix_lua)) [])))

unfoldable pub luaopen_llsocket_addrinfo : Registry → Registry × Table Field
unfolding new_metatable addrinfo_metatable addrinfo_module
luaopen_llsocket_addrinfo reg = (new_metatable addrinfo_mt addrinfo_metatable reg, addrinfo_module)

abbrev pub cmsghdr_mt : String
cmsghdr_mt = "llsocket.cmsghdr"

abbrev pub cmsghdr_mmethod : Methods
cmsghdr_mmethod = record {
  first = ("__gc", CFunction.cmsghdr CmsghdrFn.gc_lua);
  others =
      ("__tostring", CFunction.cmsghdr CmsghdrFn.tostring_lua)
      ∷ ("__len", CFunction.cmsghdr CmsghdrFn.len_lua)
      ∷ [];
}

abbrev pub cmsghdr_method : Methods
cmsghdr_method = record {
  first = ("level", CFunction.cmsghdr CmsghdrFn.level_lua);
  others =
      ("type", CFunction.cmsghdr CmsghdrFn.type_lua)
      ∷ ("data", CFunction.cmsghdr CmsghdrFn.data_lua)
      ∷ [];
}

unfoldable pub cmsghdr_metatable : Table Field
unfolding rawset do_functions do_fields
cmsghdr_metatable =
    rawset "__index" (Field.table (do_functions cmsghdr_method [])) (do_fields cmsghdr_mmethod [])

unfoldable pub cmsghdr_module : Table Field
unfolding rawset
cmsghdr_module =
    rawset "rights" (Field.function (CFunction.cmsghdr CmsghdrFn.rights_lua))
      (rawset "new" (Field.function (CFunction.cmsghdr CmsghdrFn.new_lua)) [])

unfoldable pub luaopen_llsocket_cmsghdr : Registry → Registry × Table Field
unfolding new_metatable cmsghdr_metatable cmsghdr_module
luaopen_llsocket_cmsghdr reg = (new_metatable cmsghdr_mt cmsghdr_metatable reg, cmsghdr_module)

abbrev pub cmsghdrs_mt : String
cmsghdrs_mt = "llsocket.cmsghdrs"

abbrev pub cmsghdrs_mmethod : Methods
cmsghdrs_mmethod = record {
  first = ("__gc", CFunction.cmsghdrs CmsghdrsFn.gc_lua);
  others = ("__tostring", CFunction.cmsghdrs CmsghdrsFn.tostring_lua) ∷ [];
}

abbrev pub cmsghdrs_method : Methods
cmsghdrs_method = record {
  first = ("push", CFunction.cmsghdrs CmsghdrsFn.push_lua);
  others = ("shift", CFunction.cmsghdrs CmsghdrsFn.shift_lua) ∷ [];
}

unfoldable pub cmsghdrs_metatable : Table Field
unfolding rawset do_functions do_fields
cmsghdrs_metatable =
    rawset "__index" (Field.table (do_functions cmsghdrs_method [])) (do_fields cmsghdrs_mmethod [])

unfoldable pub cmsghdrs_module : Table Field
unfolding rawset
cmsghdrs_module = rawset "new" (Field.function (CFunction.cmsghdrs CmsghdrsFn.new_lua)) []

unfoldable pub luaopen_llsocket_cmsghdrs : Registry → Registry × Table Field
unfolding new_metatable cmsghdrs_metatable cmsghdrs_module
luaopen_llsocket_cmsghdrs reg = (new_metatable cmsghdrs_mt cmsghdrs_metatable reg, cmsghdrs_module)

abbrev pub msghdr_mt : String
msghdr_mt = "llsocket.msghdr"

abbrev pub msghdr_mmethod : Methods
msghdr_mmethod = record {
  first = ("__gc", CFunction.msghdr MsghdrFn.gc_lua);
  others = ("__tostring", CFunction.msghdr MsghdrFn.tostring_lua) ∷ [];
}

abbrev pub msghdr_method : Methods
msghdr_method = record {
  first = ("name", CFunction.msghdr MsghdrFn.name_lua);
  others =
      ("iov", CFunction.msghdr MsghdrFn.iov_lua)
      ∷ ("control", CFunction.msghdr MsghdrFn.control_lua)
      ∷ ("flags", CFunction.msghdr MsghdrFn.flags_lua)
      ∷ [];
}

unfoldable pub msghdr_metatable : Table Field
unfolding rawset do_functions do_fields
msghdr_metatable =
    rawset "__index" (Field.table (do_functions msghdr_method [])) (do_fields msghdr_mmethod [])

unfoldable pub msghdr_module : Table Field
unfolding rawset
msghdr_module = rawset "new" (Field.function (CFunction.msghdr MsghdrFn.new_lua)) []

unfoldable pub luaopen_llsocket_msghdr : Registry → Registry × Table Field
unfolding new_metatable msghdr_metatable msghdr_module
luaopen_llsocket_msghdr reg = (new_metatable msghdr_mt msghdr_metatable reg, msghdr_module)

abbrev pub device_method : Methods
device_method = record { first = ("getifaddrs", CFunction.getifaddrs); others = [] }

unfoldable pub luaopen_llsocket_device : Table Field
unfolding do_fields
luaopen_llsocket_device = do_fields device_method []

abbrev pub gcfn_mt : String
gcfn_mt = "llsocket.gcfn"

-- The array of methods is empty.
unfoldable pub gcfn_metatable : Table Field
unfolding rawset push_functions push_fields
gcfn_metatable =
    rawset "__index" (Field.table (push_functions [] []))
      (push_fields (("__tostring", CFunction.gcfn_tostring) ∷ []) [])

unfoldable pub lls_gcfn_init : Registry → Registry
unfolding new_metatable gcfn_metatable
lls_gcfn_init reg = new_metatable gcfn_mt gcfn_metatable reg
