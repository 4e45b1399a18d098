-- ===== src/Lib.antt =====
-- QDMI on IQM: the device library that implements the Quantum Device Management Interface on the
-- server of IQM quantum computers.
--
-- An application opens a session, sets its parameters, initialises it and runs jobs. Each step is a
-- C function of src/iqm_device.cpp. A request to the server goes through the API configuration, which
-- makes its URL, the token manager, which gives the bearer token, and the HTTP client, which holds
-- back when the account's quota runs low, retries on HTTP 429 and maps the answer to a QDMI status.
--
-- The files and the code that they model:
--   ApiConfig   include/iqm_api_config.hpp, src/internal/iqm_api_config.cpp: get_url, format_url,
--               join_paths and url.
--   Logging     include/logging.hpp, src/internal/logging.cpp: the level from the environment, the
--               deprecation notice, the filter of error, info and debug.
--   Http        include/http_client.hpp, src/internal/http_client.cpp. Http.Number: strtol,
--               Parse_number and Retry_after_seconds; Http.Budget: Rate_limit_budget with
--               Record_rate_limit and Rate_limit_wait_seconds; Http.Retry: Perform_with_retries, Get
--               and Post; Http.Transport: Resolve_ca_bundle and Clamp_timeout_for_transport;
--               Http.Response: Handle_response.
--   Auth        include/iqm_auth.hpp, src/internal/iqm_auth.cpp. Auth.Base64: Base64_decode;
--               Auth.Expiry: time_left_seconds; Auth.Manager: TokenManager.
--   Device      src/iqm_device.cpp. Device.Buffer: the three property macros; Device.Session: the
--               session's settings and their defaults; Device.Online: requests of an initialised session; Device.Job:
--               the job's state, parameters, programs and properties; Device.Job.Native, Remote, Wait and Submit:
--               Set_job_status, job_check, job_cancel, job_wait, job_submit and
--               job_submit_calibration.
--               Device.Job.Retrieve: retrieve_device_job_by_id; Device.Results:
--               job_get_results with the histogram (Fields, Counts), the shots (Shots), the text in
--               the caller's memory (Serial) and the calibration result (Calibration);
--               Device.Results.Lifecycle: the jobs that a client can come to hold.
--               Device.Description and Device.Init: session_init, which loads the static
--               architecture (Static), the calibrated gates (Gates) and the quality metrics
--               (Metrics); Device.Status: Get_device_status and its probes; Device.Query: the queries
--               of a device, a site and an operation.
--   Json, Qdmi  what the code uses of nlohmann::json and of the QDMI headers.
--   Base        helpers, lists and numbers.
-- The modules below a component hold its theorems, and a module named Tests runs it.
--
-- Conventions. A string is the list of its bytes. A null pointer is `none`; the handles of a call are
-- not null, since every call answers INVALIDARGUMENT for a null handle before anything else. A
-- function that changes an object returns the new one. An exception is a value: `throws` of the token
-- manager, `none` where the JSON library throws, and the status of the entry point's `catch` block in
-- Device. Running out of memory is not modelled. Numbers are natural numbers or integers with the
-- conversions of the code written out where they can change a value: strtol's range error, the
-- narrowing to int, 32-bit words in Base64. A clock counts nanoseconds, and computing with it does
-- not overflow. `long`, `size_t` and `time_t` have 64 bits, and the machine is little-endian. The
-- status code of an HTTP response is not negative. A length of a string fits 64 bits, and so does the
-- sum of the widths of a program's fields, which are the lengths of lists in one JSON document.
--
-- Parameters: the transport, the clock and the sleeper are the code's own Hooks, over any state of
-- the world; job_wait, which calls the clock and the sleeper of the process, uses the same. The file
-- system is AuthHost, the environment a function, JSON the record JsonLib. What a theorem needs of
-- them is a hypothesis in its statement. The operations on doubles are Doubles, a double is its bit
-- pattern, and the numbers of the QDMI enumerations and the addresses of handles are Numbers. A pointer
-- to a site or an operation is its index in the session.
--
-- Fuel. The retry loop has eleven rounds, the code's own bound. job_wait has as fuel the number of
-- its checks; with a timeout of n seconds, n + 1 are enough, since each pause lasts at least a second.
-- Without a timeout the code's loop has no bound of its own.
--
-- Not modelled: the default hooks, which call cpr; the stream and the time stamps of the log; the log
-- lines of src/iqm_device.cpp; allocation and release of handles; the Python package, tests, examples
-- and build files.
pub mod Base
pub mod Qdmi
pub mod ApiConfig
pub mod Json
pub mod Logging
pub mod Http
pub mod Auth
pub mod Device
